-- ===== src/Batch/Placed.antt =====
-- Operations that stand in the file and stay apart, filtered and sorted.
use octofs.Prelude.{ℕ, ◌≤◌, ◌<◌, ◌≡◌, true, false, ◌⊎◌, List, [], ◌∷◌, arith, All, All-imp}
use octofs.Prelude.Pairs.{Pairwise, All-zip}
use octofs.Editable.{Ending}
use octofs.Batch.{
  BatchOperation, is_replace, is_insert, start_of, end_of, anchor_of, single, by_start, by_anchor,
}
use octofs.Batch.Simultaneous.{starting, anchored}
use octofs.Batch.Replaces.{Ready}
use octofs.Batch.Positions.{Outside}
use octofs.Batch.Inserts.{ReadyInserts}
use octofs.Batch.Conflicts.{Apart, Apart-flip}
use octofs.Batch.Collects.{Alone}

-- A range of lines of the file, or an anchor in it.
abbrev pub IsPlaced : ℕ → BatchOperation → Type 0
IsPlaced n op =
    ((is_replace op ≡ true) × (1 ≤ start_of op) × (start_of op ≤ end_of op) × (end_of op ≤ n))
    ⊎ ((is_insert op ≡ true) × (op.line_range ≡ single (anchor_of op)) × (anchor_of op ≤ n))

abbrev pub Pair : ℕ → BatchOperation → BatchOperation → Type 0
Pair n a b = IsPlaced n a × IsPlaced n b × Apart a b

pub Pair-flip : (n : ℕ) (a b : BatchOperation) → Pair n a b → Pair n b a
Pair-flip n a b (x, y, z) = (y, x, Apart-flip a b z)

pub Alone-starting :
    (e : Ending) (n i : ℕ) (a b : BatchOperation) → Pair n a b → Alone (starting e i) a b
Alone-starting e n i a b (x, y, z) = ground arith

pub Alone-anchored :
    (e : Ending) (n i : ℕ) (a b : BatchOperation) → Pair n a b → Alone (anchored e i) a b
Alone-anchored e n i a b (x, y, z) = ground arith

pub placed_replace :
    (n : ℕ) (op : BatchOperation)
    → IsPlaced n op
    → is_replace op ≡ true
    → (1 ≤ start_of op) × (start_of op ≤ end_of op) × (end_of op ≤ n)
placed_replace n op p h = ground arith

pub placed_insert :
    (n : ℕ) (op : BatchOperation)
    → IsPlaced n op
    → is_insert op ≡ true
    → (op.line_range ≡ single (anchor_of op)) × (anchor_of op ≤ n)
placed_insert n op p h = ground arith

end_of-below :
    (n : ℕ) (a b : BatchOperation)
    → Pair n a b
    → is_replace a ≡ true
    → is_replace b ≡ true
    → by_start a b ≡ true
    → end_of b < start_of a
end_of-below n a b (x, y, z) h k s = ground arith

anchor_of-below :
    (a b : BatchOperation)
    → Apart a b
    → is_insert a ≡ true
    → is_insert b ≡ true
    → by_anchor a b ≡ true
    → anchor_of b < anchor_of a
anchor_of-below a b z h k s = ground arith

pub Outside-Apart :
    (a b : BatchOperation)
    → Apart a b
    → is_insert a ≡ true
    → is_replace b ≡ true
    → Outside (anchor_of a) b
Outside-Apart a b z h k = ground arith

pub Ready-of :
    (n : ℕ) (ops : List BatchOperation)
    → All (λ op. IsPlaced n op × (is_replace op ≡ true)) ops
    → Pairwise (Pair n) ops
    → Pairwise (λ a b. by_start a b ≡ true) ops
    → Ready ops
Ready-of n [] a p s = tt
Ready-of n (op ∷ ops) a p s =
    let (x, y, z) = placed_replace n op a.0.0 a.0.1 in
    (
      a.0.1,
      x,
      y,
      All-imp ops (λ r h. end_of-below n op r h.1.0 a.0.1 h.0.1 h.1.1)
          (All-zip _ _ ops a.1 (All-zip _ _ ops p.0 s.0)),
      Ready-of n ops a.1 p.1 s.1,
    )

pub ReadyInserts-of :
    (n : ℕ) (ops : List BatchOperation)
    → All (λ op. IsPlaced n op × (is_insert op ≡ true)) ops
    → Pairwise (Pair n) ops
    → Pairwise (λ a b. by_anchor a b ≡ true) ops
    → ReadyInserts ops
ReadyInserts-of n [] a p s = tt
ReadyInserts-of n (op ∷ ops) a p s =
    let (x, y) = placed_insert n op a.0.0 a.0.1 in
    (
      a.0.1,
      x,
      All-imp ops (λ r h. anchor_of-below op r h.1.0.2 a.0.1 h.0.1 h.1.1)
          (All-zip _ _ ops a.1 (All-zip _ _ ops p.0 s.0)),
      ReadyInserts-of n ops a.1 p.1 s.1,
    )

pub by_start_total : (a b : BatchOperation) → by_start a b ≡ false → by_start b a ≡ true
by_start_total a b h = ground arith

pub by_start_trans :
    (a b c : BatchOperation) → by_start a b ≡ true → by_start b c ≡ true → by_start a c ≡ true
by_start_trans a b c h k = ground arith

pub by_anchor_total : (a b : BatchOperation) → by_anchor a b ≡ false → by_anchor b a ≡ true
by_anchor_total a b h = ground arith

pub by_anchor_trans :
    (a b c : BatchOperation) → by_anchor a b ≡ true → by_anchor b c ≡ true → by_anchor a c ≡ true
by_anchor_trans a b c h k = ground arith

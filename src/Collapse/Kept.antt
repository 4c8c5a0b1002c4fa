-- ===== src/Collapse/Kept.antt =====
-- What `CollapseRecursionOpt` of source/memhawk/src/impl/algo.cpp keeps of a trace.
use mem_hawk.Prelude.{
  ℕ, zero, suc, ◌+◌, ◌-◌, ◌^◌, ◌≤◌, ◌<◌, ◌≡◌, refl, sym, subst, ap, ◌∙◌, arith, List, [], ◌∷◌, ◌++◌,
  length, set, take, drop, length-set, ◌==◌, ◌||◌, ltb, Bool-cases, inl, inr, ltb→lt, take-ge,
}
use mathlib.Core.List.{Sublistᴰ, append_assoc, append-nil}
use mem_hawk.Collapse.{
  max_unwind_depth, at, Compacted, compact, collapse_recursion_opt, kept_frames,
}
use mem_hawk.Collapse.Bounds.{kept_frames_lem}

take-set :
    (xs : List ℕ) (i v : ℕ) → i < length xs → take (i + 1) (set xs i v) ≡ take i xs ++ (v ∷ [])
take-set [] i v h = elim h [ ]
take-set (x ∷ xs) zero v h = refl
take-set (x ∷ xs) (suc i) v h =
    let n : suc i + 1 ≡ suc (i + 1) = omega arith in rw (n, take-set xs i v (omega arith)) refl

drop-set : (xs : List ℕ) (i j v : ℕ) → i < j → drop j (set xs i v) ≡ drop j xs
drop-set xs i zero v h = elim h [ ]
drop-set [] i (suc j) v h = refl
drop-set (x ∷ xs) zero (suc j) v h = refl
drop-set (x ∷ xs) (suc i) (suc j) v h = drop-set xs i j v (omega arith)

drop-at : (xs : List ℕ) (i : ℕ) → i < length xs → drop i xs ≡ at xs i ∷ drop (i + 1) xs
drop-at [] i h = elim h [ ]
drop-at (x ∷ xs) zero h = refl
drop-at (x ∷ xs) (suc i) h =
    let n : suc i + 1 ≡ suc (i + 1) = omega arith in rw n (drop-at xs i (omega arith))

none-Sublist : (xs : List ℕ) → Sublistᴰ [] xs
none-Sublist [] = Sublistᴰ.slnil
none-Sublist (x ∷ xs) = Sublistᴰ.cons (none-Sublist xs)

all-Sublist : (xs : List ℕ) → Sublistᴰ xs xs
all-Sublist [] = Sublistᴰ.slnil
all-Sublist (x ∷ xs) = Sublistᴰ.cons-cons refl (all-Sublist xs)

drop-none : (n : ℕ) → drop {A = ℕ} n [] ≡ []
drop-none zero = refl
drop-none (suc n) = refl

drop-Sublist :
    (xs : List ℕ) (n m : ℕ) (zs : List ℕ) → Sublistᴰ zs (drop (n + m) xs) → Sublistᴰ zs (drop n xs)
drop-Sublist [] n m zs s = subst (Sublistᴰ zs) (drop-none (n + m) ∙ sym (drop-none n)) s
drop-Sublist (x ∷ xs) zero zero zs s = s
drop-Sublist (x ∷ xs) zero (suc m) zs s =
    let k : 0 + suc m ≡ suc (0 + m) = omega arith in
    Sublistᴰ.cons (drop-Sublist xs zero m zs (subst (λ j. Sublistᴰ zs (drop j (x ∷ xs))) k s))
drop-Sublist (x ∷ xs) (suc n) m zs s =
    let k : suc n + m ≡ suc (n + m) = omega arith in
    drop-Sublist xs n m zs (subst (λ j. Sublistᴰ zs (drop j (x ∷ xs))) k s)

-- What the last loop leaves behind the first `left + 1` frames is a part of the frames from `cur` on.
record IsPart (left cur : ℕ) (frames : List ℕ) (c : Compacted) : Type 0 where
  behind : List ℕ
  kept : take (c.left + 1) c.frames ≡ take (left + 1) frames ++ behind
  part : Sublistᴰ behind (drop cur frames)

compact-IsPart :
    (fuel cur left : ℕ) (dp frames : List ℕ)
    → left < cur
    → IsPart left cur frames (compact fuel (length frames) cur left dp frames)
unfolding compact
compact-IsPart zero cur left dp frames h = record {
  behind = [];
  kept = sym (append-nil (take (left + 1) frames));
  part = none-Sublist (drop cur frames);
}
compact-IsPart (suc fuel) cur left dp frames h = elim (Bool-cases (ltb cur (length frames))) [
  | inr end ↦ rw end (record {
    behind = [];
    kept = sym (append-nil (take (left + 1) frames));
    part = none-Sublist (drop cur frames);
  })
  | inl more ↦ elim (Bool-cases (at dp cur == 0)) [
    | inr drops ↦
        let a = compact-IsPart fuel (cur + at dp cur) left dp frames (omega arith) in
        rw (more, drops)
          (record {
            behind = a.behind;
            kept = a.kept;
            part = drop-Sublist frames cur (at dp cur) a.behind a.part;
          })
    | inl keeps ↦
        let x = at frames cur in
        let frames' = set frames (left + 1) x in
        let inside : cur < length frames = ltb→lt cur (length frames) more in
        let a = compact-IsPart fuel (cur + 1) (left + 1) dp frames' (omega arith) in
        let same : length frames' ≡ length frames = length-set frames (left + 1) x in
        let first : take (left + 1 + 1) frames' ≡ take (left + 1) frames ++ (x ∷ []) =
          take-set frames (left + 1) x (omega arith) in
        rw (more, keeps)
          (subst (λ n. IsPart left cur frames (compact fuel n (cur + 1) (left + 1) dp frames')) same
            (record {
              behind = x ∷ a.behind;
              kept =
                  a.kept
                  ∙ (ap (λ t. t ++ a.behind) first
                      ∙ append_assoc (take (left + 1) frames) (x ∷ []) a.behind);
              part = subst (Sublistᴰ (x ∷ a.behind)) (sym (drop-at frames cur inside)) (
                  Sublistᴰ.cons-cons refl (
                    subst (Sublistᴰ a.behind) (drop-set frames (left + 1) (cur + 1) x (omega arith))
                      a.part));
            }))
  ]
]

first_frames :
    (frames : List ℕ) (c : Compacted)
    → 2 ≤ length frames
    → IsPart 0 1 frames c
    → Sublistᴰ (take (c.left + 1) c.frames) frames
      × (take 1 (take (c.left + 1) c.frames) ≡ take 1 frames)
first_frames [] c h a = elim h [ ]
first_frames (x ∷ xs) c h a = (
  subst (λ t. Sublistᴰ t (x ∷ xs)) (sym a.kept) (Sublistᴰ.cons-cons refl a.part),
  ap (take 1) a.kept,
)

first_kept :
    (frames : List ℕ) (depth : ℕ)
    → Sublistᴰ (kept_frames (collapse_recursion_opt frames depth)) frames
      × (take 1 (kept_frames (collapse_recursion_opt frames depth)) ≡ take 1 frames)
unfolding collapse_recursion_opt
first_kept frames depth = elim (Bool-cases (depth == 0 || ltb (length frames) 2)) [
  | inl short ↦
      let whole : take (length frames) frames ≡ frames =
        take-ge frames (length frames) (omega arith) in
      rw short (subst (λ t. Sublistᴰ t frames) (sym whole) (all-Sublist frames), ap (take 1) whole)
  | inr long ↦ rw long (
      first_frames frames _ (ground (arith, long))
        (compact-IsPart (length frames) 1 0 _ frames (omega arith)))
]

-- For at most 64 frames and a depth below 2 ^ 32 - 1, `CollapseRecursionOpt` only removes frames: what
-- it keeps is a part of the trace, in the order of the trace, and starts with the first frame; its
-- length is the result.
pub kept_frames-Sublist :
    (frames : List ℕ) (depth : ℕ)
    → length frames ≤ max_unwind_depth
    → depth < 2 ^ 32 - 1
    → Sublistᴰ (kept_frames (collapse_recursion_opt frames depth)) frames
      × (take 1 (kept_frames (collapse_recursion_opt frames depth)) ≡ take 1 frames)
      × (length (kept_frames (collapse_recursion_opt frames depth))
          ≡ (collapse_recursion_opt frames depth).1)
kept_frames-Sublist frames depth fits shallow =
    let (part, first) = first_kept frames depth in (part, first, (kept_frames_lem frames depth).0)

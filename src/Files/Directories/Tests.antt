-- ===== src/Files/Directories/Tests.antt =====
-- A system whose directories are listed by their names.
use mathlib.Core.List.{append_assoc, append-nil}
use hare_mq.Base.{
  ℕ, ◌++◌, ◌==◌, subst, ◌≡◌, ◌≢◌, refl, Bool, true, false, List, [], ◌∷◌, Text, codes, text_eq,
  if◌then◌else◌, arith, Bool-cases, inl, inr, if_pos, text_discrete,
}
use hare_mq.Files.Directories.{Made, made, exists, failed, System, IsMkdir, parent_dir}

has_dir : List Text → Text → Bool
has_dir [] p = false
has_dir (q ∷ d) p = if text_eq q p then true else has_dir d p

-- The directories on the way are there.
parents : List Text → Text → Text → Bool
parents d seen [] = true
parents d seen (c ∷ path) =
    let rest = parents d (seen ++ c ∷ []) path in
    if c == b'/' then (if has_dir d seen then rest else false) else rest

make : List Text → Text → List Text × Made
make d [] = (d, failed)
make d (c ∷ p) =
    if parents d [] (c ∷ p)
    then (if has_dir d (c ∷ p) then (d, exists) else ((c ∷ p) ∷ d, made))
    else (d, failed)

abbrev sample : System
sample = record { Dirs = List Text; mkdir = make }

text_eq_refl : (p : Text) → text_eq p p ≡ true
text_eq_refl p = if_pos (text_discrete p p) refl true false

make-kept : (d : List Text) (p q : Text) → has_dir d q ≡ true → has_dir (make d p).0 q ≡ true
unfolding make has_dir
make-kept d [] q h = h
make-kept d (c ∷ p) q h = elim (Bool-cases (parents d [] (c ∷ p))) [
  | inr no_way ↦ rw no_way h
  | inl way ↦ elim (Bool-cases (has_dir d (c ∷ p))) [
    | inl e ↦ rw way (rw e h)
    | inr e ↦ rw way (rw e (ground arith))
  ]
]

make-there : (d : List Text) (p : Text) → (make d p).1 ≡ made → has_dir (make d p).0 p ≡ true
unfolding make has_dir
make-there d [] h = absurd (cc)
make-there d (c ∷ p) h = elim (Bool-cases (parents d [] (c ∷ p))) [
  | inr no_way ↦ absurd (cc (rw no_way at h))
  | inl way ↦ elim (Bool-cases (has_dir d (c ∷ p))) [
    | inl e ↦ rw way (rw e e)
    | inr e ↦ rw way (rw e (rw (text_eq_refl (c ∷ p)) refl))
  ]
]

parents-has :
    (d : List Text) (seen p q : Text)
    → parents d seen (p ++ b'/' ∷ q) ≡ true
    → has_dir d (seen ++ p) ≡ true
unfolding parents
parents-has d seen [] q h = elim (Bool-cases (has_dir d seen)) [
  | inl e ↦ rw (append-nil seen) e
  | inr e ↦ absurd (cc (rw e at h))
]
parents-has d seen (c ∷ p) q h =
    subst (λ n. has_dir d n ≡ true) (append_assoc seen (c ∷ []) p)
      (parents-has d (seen ++ c ∷ []) p q (elim (Bool-cases (c == b'/')) [
        | inr e ↦ rw e at h
        | inl e ↦ elim (Bool-cases (has_dir d seen)) [
          | inl f ↦ rw (e, f) at h
          | inr f ↦ absurd (cc (rw (e, f) at h))
        ]
      ]))

make-parent :
    (d : List Text) (c : ℕ) (p q : Text)
    → (make d ((c ∷ p) ++ b'/' ∷ q)).1 ≢ failed
    → has_dir d (c ∷ p) ≡ true
unfolding make
make-parent d c p q h = elim (Bool-cases (parents d [] ((c ∷ p) ++ b'/' ∷ q))) [
  | inl way ↦ parents-has d [] (c ∷ p) q way
  | inr no_way ↦ absurd (h (rw no_way refl))
]

sample-IsMkdir : IsMkdir sample
unfolding make
sample-IsMkdir = record {
  has = has_dir;
  empty = λ d. refl;
  kept = make-kept;
  there = make-there;
  parent = make-parent;
}

of_file : parent_dir (codes "a/b/c.db") ≡ codes "a/b"
unfolding parent_dir
of_file = refl

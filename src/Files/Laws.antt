-- ===== src/Files/Laws.antt =====
-- Reading and writing at a place inside a file.
use mathlib.Core.List.{append-nil}
use hare_mq.Base.{
  ℕ, zero, suc, ◌+◌, ◌-◌, ◌≤◌, ◌≡◌, refl, ap, ◌∙◌, ◌≢◌, true, List, [], ◌∷◌, ◌++◌, none, some, Text,
  text_discrete, leb, arith, if_true, length, take, drop, replicate, length-append, take-append,
  drop-append, find, erase, find-assign, find-erase, find_cases, inl, inr,
}
use hare_mq.Files.{Files, size, read, overwrite, write, create, remove, rename}

drop-beyond {ℓ} : {A : Type ℓ} (n : ℕ) (xs : List A) → length xs ≤ n → drop n xs ≡ []
drop-beyond zero [] h = refl
drop-beyond zero (x ∷ xs) h = absurd (omega arith)
drop-beyond (suc n) [] h = refl
drop-beyond (suc n) (x ∷ xs) h = drop-beyond n xs (omega arith)

drop-add {ℓ} : {A : Type ℓ} (xs ys : List A) (n : ℕ) → drop (length xs + n) (xs ++ ys) ≡ drop n ys
drop-add [] ys n = ap (λ (k : ℕ). drop k ys) (omega arith)
drop-add (x ∷ xs) ys n = rw (suc_sum (length xs) n) (drop-add xs ys n)
  where
    suc_sum : (a b : ℕ) → suc a + b ≡ suc (a + b)
    suc_sum a b = omega arith

take-length {ℓ} : {A : Type ℓ} (xs : List A) → take (length xs) xs ≡ xs
take-length [] = refl
take-length (x ∷ xs) = ap (◌∷◌ x) (take-length xs)

no_gap : (n : ℕ) → n ≡ 0 → replicate {A = ℕ} n 0 ≡ []
no_gap zero h = refl
no_gap (suc n) h = absurd (omega arith)

-- A write at the end of the text appends.
pub overwrite-end : (bytes body : Text) → overwrite bytes (length bytes) body ≡ bytes ++ body
unfolding overwrite
overwrite-end bytes body =
    rw
      (
        take-length bytes,
        no_gap (length bytes - length bytes) (omega arith),
        drop-beyond (length bytes + length body) bytes (omega arith),
      )
      (simp append-nil refl)

-- A write over a part of the same length replaces it.
pub overwrite-middle :
    (pre old post body : Text)
    → length old ≡ length body
    → overwrite (pre ++ (old ++ post)) (length pre) body ≡ pre ++ (body ++ post)
unfolding overwrite
overwrite-middle pre old post body e =
    rw
      (
        take-append pre (old ++ post),
        no_gap (length pre - length (pre ++ (old ++ post)))
            (omega (arith, length-append pre (old ++ post))),
        drop-add pre (old ++ post) (length body),
        ← e,
        drop-append old post,
      )
      (simp append-nil refl)

pub read-middle :
    (fs : Files) (file pre mid post : Text)
    → find text_discrete file fs ≡ some (pre ++ (mid ++ post))
    → read fs file (length pre) (length mid) ≡ some mid
unfolding read
read-middle fs file pre mid post e =
    rw (e, read)
      (if_true _ _ _ long_enough
        ∙ ap some (rw (drop-append pre (mid ++ post)) (take-append mid post)))
  where
    long_enough : leb (length pre + length mid) (length (pre ++ (mid ++ post))) ≡ true
    long_enough = ground (arith, length-append pre (mid ++ post), length-append mid post)

-- Where a file exists, a write changes this file only.
pub write-find :
    (fs : Files) (file bytes body : Text) (offset : ℕ)
    → find text_discrete file fs ≡ some bytes
    → ((write fs file offset body).1 ≡ true)
      × (find text_discrete file (write fs file offset body).0 ≡ some (overwrite bytes offset body))
unfolding write
write-find fs file bytes body offset e =
    rw (e, write)
      (refl, ground (arith, find-assign text_discrete file file (overwrite bytes offset body) fs))

pub size-find :
    (fs : Files) (file bytes : Text)
    → find text_discrete file fs ≡ some bytes
    → size fs file ≡ length bytes
unfolding size
size-find fs file bytes e = rw (e, size)

pub write-find_ne :
    (fs : Files) (file other body : Text) (offset : ℕ)
    → other ≢ file
    → find text_discrete other (write fs file offset body).0 ≡ find text_discrete other fs
unfolding write
write-find_ne fs file other body offset n = elim (find_cases text_discrete file fs) [
  | inl e ↦ rw (e, write) refl
  | inr (bytes, e) ↦
      rw (e, write)
        (ground (arith, find-assign text_discrete file other (overwrite bytes offset body) fs))
]

-- A created file is empty, and the others are as they were.
pub create-find :
    (fs : Files) (file : Text)
    → (find text_discrete file (create fs file) ≡ some [])
      × ((other : Text)
          → other ≢ file
          → find text_discrete other (create fs file) ≡ find text_discrete other fs)
unfolding create
create-find fs file = (
  ground (arith, find-assign text_discrete file file [] fs),
  λ other n. ground (arith, find-assign text_discrete file other [] fs),
)

-- Removing a file that exists succeeds, and the others are as they were.
pub remove-find :
    (fs : Files) (file bytes : Text)
    → find text_discrete file fs ≡ some bytes
    → ((remove fs file).1 ≡ true)
      × (find text_discrete file (remove fs file).0 ≡ none)
      × ((other : Text)
          → other ≢ file
          → find text_discrete other (remove fs file).0 ≡ find text_discrete other fs)
unfolding remove
remove-find fs file bytes e =
    rw (e, remove)
      (
        refl,
        ground (arith, find-erase text_discrete file file fs),
        λ other n. ground (arith, find-erase text_discrete file other fs),
      )

-- A renamed file stands under its new name only.
pub rename-find :
    (fs : Files) (file name bytes : Text)
    → name ≢ file
    → find text_discrete file fs ≡ some bytes
    → (find text_discrete name (rename fs file name).0 ≡ some bytes)
      × (find text_discrete file (rename fs file name).0 ≡ none)
unfolding rename
rename-find fs file name bytes n e =
    rw (e, rename)
      (
        ground (arith, find-assign text_discrete name name bytes (erase text_discrete file fs)),
        ground (
          arith,
          find-assign text_discrete name file bytes (erase text_discrete file fs),
          find-erase text_discrete file file fs,
        ),
      )

-- Removing and renaming touch the files that they name only.
pub remove-find_ne :
    (fs : Files) (file other : Text)
    → other ≢ file
    → find text_discrete other (remove fs file).0 ≡ find text_discrete other fs
unfolding remove
remove-find_ne fs file other n = elim (find_cases text_discrete file fs) [
  | inl e ↦ rw (e, remove) refl
  | inr (bytes, e) ↦ rw (e, remove) (ground (arith, find-erase text_discrete file other fs))
]

pub rename-find_ne :
    (fs : Files) (file name other : Text)
    → other ≢ file
    → other ≢ name
    → find text_discrete other (rename fs file name).0 ≡ find text_discrete other fs
unfolding rename
rename-find_ne fs file name other n n' = elim (find_cases text_discrete file fs) [
  | inl e ↦ rw (e, rename) refl
  | inr (bytes, e) ↦
      rw (e, rename)
        (ground (
          arith,
          find-assign text_discrete name other bytes (erase text_discrete file fs),
          find-erase text_discrete file other fs,
        ))
]

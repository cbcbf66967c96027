-- ===== src/Message/Queue/Sound/Records.antt =====
-- message.hpp: the records of a data file by their numbers, and the valid ones among them.
use mathlib.Core.Option.{some-injective}
use hare_mq.Base.{
  ℕ, zero, suc, ◌+◌, ◌^◌, ◌<◌, ◌≤◌, ◌≡◌, ◌≢◌, refl, sym, ap, ◌∙◌, false, List, [], ◌∷◌, ◌++◌, map,
  some, codes, text_discrete, text_eq, ℕ_discrete, arith, length, length-append, take, drop,
  get_elem?, set, Bool-cases, inl, inr, subst,
}
use hare_mq.Proto.{Payload, Message}
use hare_mq.Split.{All}
use hare_mq.Message.Mapper.{Codec, size_width}
use hare_mq.Message.Mapper.Records.{encode, encode_all, encode_all-append, length-encode, Fits}
use hare_mq.Message.Mapper.Load.{valid_only}
use hare_mq.Message.Queue.Sound.{id_of, UniqueIds, offset_of}

pub get_elem?-take_drop {ℓ} :
    {A : Type ℓ} (xs : List A) (i : ℕ) (x : A)
    → get_elem? xs i ≡ some x
    → xs ≡ take i xs ++ x ∷ drop (suc i) xs
get_elem?-take_drop [] i x e = absurd (cc)
get_elem?-take_drop (y ∷ xs) zero x e = ap (λ z. z ∷ xs) (some-injective _ _ e)
get_elem?-take_drop (y ∷ xs) (suc i) x e = ap (◌∷◌ y) (get_elem?-take_drop xs i x e)

pub set-take_drop {ℓ} :
    {A : Type ℓ} (xs : List A) (i : ℕ) (x y : A)
    → get_elem? xs i ≡ some x
    → set xs i y ≡ take i xs ++ y ∷ drop (suc i) xs
set-take_drop [] i x y e = absurd (cc)
set-take_drop (z ∷ xs) zero x y e = refl
set-take_drop (z ∷ xs) (suc i) x y e = ap (◌∷◌ z) (set-take_drop xs i x y e)

pub All-map {ℓ κ μ} :
    {A : Type ℓ} {P : A → Type κ} {Q : A → Type μ} (xs : List A)
    → ((x : A) → P x → Q x)
    → All P xs
    → All Q xs
All-map [] f a = tt
All-map (x ∷ xs) f a = (f x a.0, All-map xs f a.1)

pub All-zip {ℓ κ μ ν} :
    {A : Type ℓ} {P : A → Type κ} {Q : A → Type μ} {R : A → Type ν} (xs : List A)
    → ((x : A) → P x → Q x → R x)
    → All P xs
    → All Q xs
    → All R xs
All-zip [] f a b = tt
All-zip (x ∷ xs) f a b = (f x a.0 b.0, All-zip xs f a.1 b.1)

pub All-get {ℓ κ} :
    {A : Type ℓ} (P : A → Type κ) (xs : List A) (i : ℕ) (x : A)
    → get_elem? xs i ≡ some x
    → All P xs
    → P x
All-get P [] i x e a = absurd (cc)
All-get P (y ∷ xs) zero x e a = subst P (some-injective _ _ e) a.0
All-get P (y ∷ xs) (suc i) x e a = All-get P xs i x e a.1

pub All-drop_middle {ℓ κ} :
    {A : Type ℓ} (P : A → Type κ) (xs ys : List A) (r : A) → All P (xs ++ r ∷ ys) → All P (xs ++ ys)
All-drop_middle P [] ys r a = a.1
All-drop_middle P (x ∷ xs) ys r a = (a.0, All-drop_middle P xs ys r a.1)

pub All-middle {ℓ κ} :
    {A : Type ℓ} (P : A → Type κ) (xs ys : List A) (r : A) → All P (xs ++ r ∷ ys) → P r
All-middle P [] ys r a = a.0
All-middle P (x ∷ xs) ys r a = All-middle P xs ys r a.1

pub All-snoc {ℓ κ} :
    {A : Type ℓ} (P : A → Type κ) (xs : List A) (x : A) → All P xs → P x → All P (xs ++ x ∷ [])
All-snoc P [] x a p = (p, tt)
All-snoc P (y ∷ xs) x a p = (a.0, All-snoc P xs x a.1 p)

pub UniqueIds-middle :
    (xs ys : List Payload) (r : Payload)
    → UniqueIds (xs ++ r ∷ ys)
    → UniqueIds (xs ++ ys) × All (λ s. id_of s ≢ id_of r) (xs ++ ys)
UniqueIds-middle [] ys r u = (u.1, u.0)
UniqueIds-middle (x ∷ xs) ys r u =
    let (rest, others) = UniqueIds-middle xs ys r u.1 in
    (
      (All-drop_middle (λ s. id_of s ≢ id_of x) xs ys r u.0, rest),
      ((λ e. All-middle (λ s. id_of s ≢ id_of x) xs ys r u.0 (sym e)), others),
    )

pub UniqueIds-snoc :
    (xs : List Payload) (r : Payload)
    → UniqueIds xs
    → All (λ s. id_of s ≢ id_of r) xs
    → UniqueIds (xs ++ r ∷ [])
UniqueIds-snoc [] r u a = (tt, tt)
UniqueIds-snoc (x ∷ xs) r u a =
    (All-snoc (λ s. id_of s ≢ id_of x) xs r u.0 (λ e. a.0 (sym e)), UniqueIds-snoc xs r u.1 a.1)

take-append_left {ℓ} :
    {A : Type ℓ} (xs ys : List A) (i : ℕ) → i ≤ length xs → take i (xs ++ ys) ≡ take i xs
take-append_left xs ys zero h = refl
take-append_left [] ys (suc i) h = absurd (omega arith)
take-append_left (x ∷ xs) ys (suc i) h = ap (◌∷◌ x) (take-append_left xs ys i (omega arith))

pub is_valid : (r : Payload) → r.valid ≡ codes "1" → text_eq r.valid (codes "0") ≡ false
unfolding text_discrete ℕ_discrete
is_valid r e = rw e refl

-- A valid record is among the valid ones.
pub valid_only-get :
    (ps : List Payload) (i : ℕ) (r : Payload)
    → get_elem? ps i ≡ some r
    → r.valid ≡ codes "1"
    → (j : ℕ) × (get_elem? (valid_only ps) j ≡ some r)
valid_only-get [] i r e v = absurd (cc)
valid_only-get (p ∷ ps) zero r e v =
    let same : p ≡ r = some-injective _ _ e in
    (0, rw (is_valid p (ap (λ (s : Payload). s.valid) same ∙ v)) e)
valid_only-get (p ∷ ps) (suc i) r e v =
    let (j, at) = valid_only-get ps i r e v in
    elim (Bool-cases (text_eq p.valid (codes "0"))) [
      | inl f ↦ (j, rw f at)
      | inr f ↦ (suc j, rw f at)
    ]

pub get_elem?-map :
    (ms : List Message) (j : ℕ) (r : Payload)
    → get_elem? (map (λ m. m.payload) ms) j ≡ some r
    → (m : Message) × (get_elem? ms j ≡ some m) × (m.payload ≡ r)
get_elem?-map [] j r e = absurd (cc)
get_elem?-map (m ∷ ms) zero r e = (m, refl, some-injective _ _ e)
get_elem?-map (m ∷ ms) (suc j) r e = get_elem?-map ms j r e

module _ (c : Codec) where
  -- The places do not change when a record gives way to one of its length.
  pub offset_of-set :
      (ps : List Payload) (i j : ℕ) (r s : Payload)
      → get_elem? ps j ≡ some r
      → length (encode c s) ≡ length (encode c r)
      → offset_of c (set ps j s) i ≡ offset_of c ps i
  offset_of-set ps zero j r s e same = refl
  offset_of-set [] (suc i) j r s e same = refl
  offset_of-set (p ∷ ps) (suc i) zero r s e same = omega (
    arith,
    length-append (encode c s) (encode_all c (take i ps)),
    length-append (encode c p) (encode_all c (take i ps)),
    same,
    ap (λ (t : Payload). length (encode c t)) (some-injective _ _ e),
  )
  offset_of-set (p ∷ ps) (suc i) (suc j) r s e same = omega (
    arith,
    length-append (encode c p) (encode_all c (take i (set ps j s))),
    length-append (encode c p) (encode_all c (take i ps)),
    offset_of-set ps i j r s e same,
  )

  pub offset_of-append :
      (ps qs : List Payload) (i : ℕ) → i ≤ length ps → offset_of c (ps ++ qs) i ≡ offset_of c ps i
  offset_of-append ps qs i h =
      ap (λ (rs : List Payload). length (encode_all c rs) + size_width) (take-append_left ps qs i h)

  pub offset_of-bound :
      (ps : List Payload) (i : ℕ) (r : Payload)
      → get_elem? ps i ≡ some r
      → offset_of c ps i + length (c.serialize r) ≤ length (encode_all c ps)
  offset_of-bound ps i r e =
      let before = take i ps in
      let after = drop (suc i) ps in
      let whole : length (encode_all c ps)
          ≡ length (encode_all c before ++ encode_all c (r ∷ after)) =
        ap (λ (rs : List Payload). length (encode_all c rs)) (get_elem?-take_drop ps i r e)
        ∙ ap length (encode_all-append c before (r ∷ after)) in
      omega (
        arith,
        whole,
        length-append (encode_all c before) (encode_all c (r ∷ after)),
        length-append (encode c r) (encode_all c after),
        length-encode c r,
      )

  -- In a file below 2 ^ 32 bytes every record fits.
  pub Fits-All : (ps : List Payload) → length (encode_all c ps) < 2 ^ 32 → All (Fits c) ps
  Fits-All [] h = tt
  Fits-All (p ∷ ps) h = (
    omega (arith, length-append (encode c p) (encode_all c ps), length-encode c p),
    Fits-All ps (omega (arith, length-append (encode c p) (encode_all c ps))),
  )

  pub length-valid_only : (ps : List Payload) → length (valid_only ps) ≤ length (encode_all c ps)
  length-valid_only [] = omega arith
  length-valid_only (p ∷ ps) = elim (Bool-cases (text_eq p.valid (codes "0"))) [
    | inl e ↦ rw e (
        omega (
          arith,
          length-append (encode c p) (encode_all c ps),
          length-encode c p,
          length-valid_only ps,
        ))
    | inr e ↦ rw e (
        omega (
          arith,
          length-append (encode c p) (encode_all c ps),
          length-encode c p,
          length-valid_only ps,
        ))
  ]

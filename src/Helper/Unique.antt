-- ===== src/Helper/Unique.antt =====
-- helper.hpp, `uuid_helper::uuid()`: what the identifiers look like, and that they differ.
use mathlib.Core.List.{append_assoc}
use hare_mq.Base.{
  ◌≢◌, ℕ, zero, suc, ◌+◌, ◌/◌, ◌%◌, ◌^◌, ◌<◌, ◌≡◌, refl, sym, ◌∙◌, ◌∷◌, ◌++◌, Text, arith, length,
  get_or, take, drop, take-append, drop-append, ◌==◌, ℕ_discrete, ap,
}
use hare_mq.Message.Mapper.{bytes_of, number_of}
use hare_mq.Message.Mapper.Records.{number_of-bytes_of}
use hare_mq.Helper.Uuid.{digit, hex, shift, dash_if, seq_part, rounds, uuid}

digit_injective : (a b : ℕ) → a < 16 → b < 16 → digit a ≡ digit b → a ≡ b
unfolding digit
digit_injective a b h g e = ground arith

hex_injective : (a b : ℕ) → a < 256 → b < 256 → hex a ≡ hex b → a ≡ b
unfolding hex
hex_injective a b h g e =
    let high =
      digit_injective (a / 16) (b / 16) (omega arith) (omega arith)
        (ap (λ (t : Text). get_or t 0 0) e) in
    let low =
      digit_injective (a % 16) (b % 16) (omega arith) (omega arith)
        (ap (λ (t : Text). get_or t 1 0) e) in
    omega (arith, high, low)

length-hex : (n : ℕ) → length (hex n) ≡ 2
unfolding hex
length-hex n = refl

length-seq_part : (num : ℕ) → length (seq_part 8 num) ≡ 17
unfolding seq_part hex
length-seq_part num = refl

append-cancel : (xs ys zs : Text) → xs ++ ys ≡ xs ++ zs → ys ≡ zs
append-cancel xs ys zs e = sym (drop-append xs ys) ∙ ap (drop (length xs)) e ∙ drop-append xs zs

same_front :
    (xs xs' ys ys' : Text) (n : ℕ)
    → length xs ≡ n
    → length xs' ≡ n
    → xs ++ ys ≡ xs' ++ ys'
    → xs ≡ xs'
same_front xs xs' ys ys' n h g e =
    sym (take-append xs ys)
    ∙ ap (λ k. take k (xs ++ ys)) (h ∙ sym g)
    ∙ ap (take (length xs')) e
    ∙ take-append xs' ys'

-- Equal sequence parts come from equal bytes.
seq_part-bytes :
    (k a b : ℕ) → seq_part k a ≡ seq_part k b → (i : ℕ) → i < k → shift i a % 256 ≡ shift i b % 256
unfolding seq_part
seq_part-bytes zero a b e i h = absurd (omega arith)
seq_part-bytes (suc k) a b e i h =
    let e' : hex (shift k a % 256) ++ (dash_if (k == 6) ++ seq_part k a)
        ≡ hex (shift k b % 256) ++ (dash_if (k == 6) ++ seq_part k b) =
      sym (append_assoc (hex (shift k a % 256)) (dash_if (k == 6)) (seq_part k a))
      ∙ e
      ∙ append_assoc (hex (shift k b % 256)) (dash_if (k == 6)) (seq_part k b) in
    let same_hex : hex (shift k a % 256) ≡ hex (shift k b % 256) = unfold hex in ap (take 2) e' in
    let same_byte : shift k a % 256 ≡ shift k b % 256 =
      hex_injective (shift k a % 256) (shift k b % 256) (omega arith) (omega arith) same_hex in
    let rest : dash_if (k == 6) ++ seq_part k a ≡ dash_if (k == 6) ++ seq_part k b =
      unfold hex in ap (drop 2) e' in
    elim (ℕ_discrete i k) [
      | yes at ↦ ap (λ j. shift j a % 256) at ∙ same_byte ∙ ap (λ j. shift j b % 256) (sym at)
      | no differ ↦
          seq_part-bytes k a b (append-cancel (dash_if (k == 6)) (seq_part k a) (seq_part k b) rest)
            i (omega (arith, h, differ))
    ]

bytes_of-shift :
    (k a b : ℕ)
    → ((i : ℕ) → i < k → shift i a % 256 ≡ shift i b % 256)
    → bytes_of k a ≡ bytes_of k b
unfolding bytes_of shift
bytes_of-shift zero a b same = refl
bytes_of-shift (suc k) a b same =
    ap (λ x. x ∷ bytes_of k (a / 256)) (same 0 (omega arith))
    ∙ ap (◌∷◌ (b % 256))
        (bytes_of-shift k (a / 256) (b / 256) (λ i h. same (suc i) (omega (arith, h))))

seq_part-injective : (a b : ℕ) → a < 2 ^ 64 → b < 2 ^ 64 → seq_part 8 a ≡ seq_part 8 b → a ≡ b
seq_part-injective a b h g e =
    let bytes : bytes_of 8 a ≡ bytes_of 8 b = bytes_of-shift 8 a b (seq_part-bytes 8 a b e) in
    sym (number_of-bytes_of 8 a (omega (arith, h)))
    ∙ ap number_of bytes
    ∙ number_of-bytes_of 8 b (omega (arith, g))

uuid-injective :
    (draw draw' : ℕ → ℕ) (seq seq' : ℕ)
    → seq < 2 ^ 64
    → seq' < 2 ^ 64
    → uuid draw seq ≡ uuid draw' seq'
    → seq ≡ seq'
unfolding uuid rounds hex
uuid-injective draw draw' seq seq' h g e = seq_part-injective seq seq' h g (
    same_front (seq_part 8 seq) (seq_part 8 seq') (rounds draw 7 (0 + 1) ((seq + 1) % 2 ^ 64))
      (rounds draw' 7 (0 + 1) ((seq' + 1) % 2 ^ 64)) 17 (length-seq_part seq) (length-seq_part seq')
      (ap (drop 2) e))

-- Two identifiers differ if the counter stood at different numbers when they were made, both
-- below 2 ^ 64, whatever was drawn.
pub uuid_unique :
    (draw draw' : ℕ → ℕ) (seq seq' : ℕ)
    → seq < 2 ^ 64
    → seq' < 2 ^ 64
    → seq ≢ seq'
    → ¬ (uuid draw seq ≡ uuid draw' seq')
uuid_unique draw draw' seq seq' h g differ same =
    differ (uuid-injective draw draw' seq seq' h g same)

-- An identifier has 155 characters: each of the eight rounds writes two digits of a random number
-- and the sixteen digits of the counter.
pub length-uuid : (draw : ℕ → ℕ) (seq : ℕ) → length (uuid draw seq) ≡ 155
unfolding uuid rounds hex seq_part
length-uuid draw seq = refl

-- ===== src/Helper/Uuid.antt =====
-- helper.hpp, `uuid_helper::uuid()`. `std::random_device` and the generator are no part of the
-- repository: `draw i` is the number that round `i` draws, from 0 to 255.
use hare_mq.Base.{
  ℕ, zero, suc, ◌+◌, ◌-◌, ◌/◌, ◌%◌, ◌^◌, Bool, [], ◌∷◌, ◌++◌, Text, ltb, ◌==◌, ◌||◌, if◌then◌else◌,
}

-- A digit of `std::hex`, and two of them with `std::setw(2)` and `std::setfill('0')`.
unfoldable pub digit : ℕ → ℕ
digit d = if ltb d 10 then b'0' + d else b'a' + (d - 10)

unfoldable pub hex : ℕ → Text
unfolding digit
hex n = digit (n / 16) ∷ digit (n % 16) ∷ []

-- `num >> (i * 8)`.
unfoldable pub shift : ℕ → ℕ → ℕ
shift zero num = num
shift (suc i) num = shift i (num / 256)

abbrev pub dash_if : Bool → Text
dash_if b = if b then b'-' ∷ [] else []

-- The inner loop, from `i = k - 1` down to 0.
unfoldable pub seq_part : ℕ → ℕ → Text
unfolding hex shift
seq_part zero num = []
seq_part (suc i) num = (hex (shift i num % 256) ++ dash_if (i == 6)) ++ seq_part i num

-- The rounds of the outer loop from round `i` on, `k` of them; `seq` is the static counter, which
-- each round moves on, modulo 2 ^ 64.
unfoldable pub rounds : (ℕ → ℕ) → ℕ → ℕ → ℕ → Text
unfolding hex seq_part
rounds draw zero i seq = []
rounds draw (suc k) i seq =
    (hex (draw i) ++ dash_if ((i == 3) || ((i == 5) || (i == 7))))
    ++ (seq_part 8 seq ++ rounds draw k (i + 1) ((seq + 1) % 2 ^ 64))

unfoldable pub uuid : (ℕ → ℕ) → ℕ → Text
unfolding rounds
uuid draw seq = rounds draw 8 0 seq

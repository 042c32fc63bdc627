-- ===== src/Heartbeat/Jitter.antt =====
-- `heartbeatJitter`. A duration is a signed count of nanoseconds; the theorem shows that for an int64
-- no step leaves its range.
use banyan_hub_sdk.Base.{
  ltb, leb, if◌then◌else◌, ℕ, ◌+◌, ◌-◌, ◌*◌, ◌/◌, ◌^◌, ◌≤◌, ◌<◌, ◌≡◌, refl, inl, inr, arith,
}
use banyan_hub_sdk.Errors.{Result, ok, err, Result-cases}

-- A signed integer; `negsuc n` is -(n + 1).
pub data ℤ : Type 0 where
  pos : ℕ → ℤ
  negsuc : ℕ → ℤ

-- `time.Duration(1<<63 - 1)`
abbrev pub max_duration : ℕ
max_duration = 2 ^ 63 - 1

with_offset : ℕ → ℕ → Result ℕ → ℕ
with_offset interval delta (err e) = interval
with_offset interval delta (ok offset) = interval - delta + offset

-- The jitter of a positive interval. `random n` is `rand.Int(rand.Reader, n)`.
jitter_of : (ℕ → Result ℕ) → ℕ → ℕ
unfolding with_offset
jitter_of random interval =
    let delta = interval / 10 in
    if leb delta 0
    then interval
    else if ltb (max_duration - delta) interval
    then interval
    else with_offset interval delta (random (delta * 2 + 1))

-- `heartbeatJitter`
unfoldable pub heartbeat_jitter : (ℕ → Result ℕ) → ℤ → ℕ
unfolding jitter_of
heartbeat_jitter random (negsuc n) = 0
heartbeat_jitter random (pos n) = if leb n 0 then 0 else jitter_of random n

-- `rand.Int` draws below its bound.
abbrev pub DrawsBelow : (ℕ → Result ℕ) → Type 0
DrawsBelow random = (n r : ℕ) → random n ≡ ok r → r < n

-- A nonnegative interval's jitter lies within a tenth of the interval; a negative one has none.
unfoldable pub Bounded : (ℕ → Result ℕ) → ℤ → Type 0
Bounded random (negsuc n) = heartbeat_jitter random (negsuc n) ≡ 0
Bounded random (pos n) =
    (n - n / 10 ≤ heartbeat_jitter random (pos n))
    × (heartbeat_jitter random (pos n) ≤ n + n / 10)
    × (heartbeat_jitter random (pos n) ≤ max_duration)
    × (n / 10 * 2 + 1 ≤ max_duration)

unfoldable pub FitsInt64 : ℤ → Type 0
FitsInt64 (pos n) = n ≤ max_duration
FitsInt64 (negsuc n) = n ≤ max_duration

-- For an interval of int64, and a random draw below its bound: the jitter of a negative interval is
-- zero; that of any other lies within a tenth of the interval, on both sides, and in the range of
-- int64, and so does the bound that is drawn below.
pub heartbeat_jitter_bounds :
    (random : ℕ → Result ℕ) (interval : ℤ)
    → DrawsBelow random
    → FitsInt64 interval
    → Bounded random interval
unfolding heartbeat_jitter Bounded FitsInt64
heartbeat_jitter_bounds random (negsuc n) below h = refl
heartbeat_jitter_bounds random (pos n) below h = elim (Result-cases (random (n / 10 * 2 + 1))) [
  | inl (r, e) ↦ ground (arith, below (n / 10 * 2 + 1) r e)
  | inr (x, e) ↦ ground arith
]

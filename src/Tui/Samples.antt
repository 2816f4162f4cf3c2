-- ===== src/Tui/Samples.antt =====
-- The sample buffers of the graphs (ec/test-tui/src/common.rs).
pub mod Window
use odp_platform_common.Common.{
  ℕ, suc, ◌+◌, ◌%◌, ◌^◌, Bool, List, [], ◌∷◌, ◌++◌, length, drop, ltb, ◌==◌, if◌then◌else◌,
}
use odp_platform_common.Script.Platform.{Platform}
use odp_platform_common.Serial.Device.{Float}

pub record SessionStats (P : Platform) : Type 0 where
  pub min : P.F
  pub max : P.F
  pub sum : P.F
  pub count : ℕ
  pub prev : P.F
  pub delta : P.F

-- A window of so many samples, with the statistics of all.
pub record SampleBuf (P : Platform) (T : Type 0) : Type 0 where
  pub samples : List T
  pub stats : SessionStats P

module _ {P : Platform} (N : Float P) where
  open P use {F, lt, of_ℕ}

  unfoldable pub stats_default : SessionStats P
  stats_default = record {
    min = of_ℕ 0;
    max = of_ℕ 0;
    sum = of_ℕ 0;
    count = 0;
    prev = of_ℕ 0;
    delta = of_ℕ 0;
  }

  unfoldable pub avg : SessionStats P → F
  avg s = if s.count == 0 then of_ℕ 0 else N.div s.sum (of_ℕ s.count)

  unfoldable pub has_data : SessionStats P → Bool
  has_data s = ltb 0 s.count

  unfoldable pub record_value : F → SessionStats P → SessionStats P
  record_value value s =
      let next : SessionStats P =
        if s.count == 0 then record s { min = value; max = value } else record s {
          min = if lt value s.min then value else s.min;
          max = if lt s.max value then value else s.max;
          delta = N.sub value s.prev;
        } in
      record next { sum = N.add s.sum value; count = (s.count + 1) % 2 ^ 64; prev = value }

  unfoldable pub buf_default : {T : Type 0} → SampleBuf P T
  unfolding stats_default
  buf_default = record { samples = []; stats = stats_default }

  -- `VecDeque::push_back`, and `pop_front` where there are more than the bound.
  abbrev pub push_sample : {T : Type 0} → ℕ → T → List T → List T
  push_sample bound sample samples =
      if ltb bound (length (samples ++ sample ∷ []))
      then drop 1 (samples ++ sample ∷ [])
      else samples ++ sample ∷ []

  unfoldable pub insert : {T : Type 0} → (T → F) → ℕ → T → SampleBuf P T → SampleBuf P T
  unfolding record_value
  insert into bound sample buf = record {
    samples = push_sample bound sample buf.samples;
    stats = record_value (into sample) buf.stats;
  }

-- ===== src/Redis/Memory.antt =====
-- A store in memory that meets the laws: two functions.
use shortlink_system.Base.{
  ℕ, refl, Option, none, some, Text, Bool, true, false, ◌&&◌, ◌==◌, text_eq, if◌then◌else◌,
}
use shortlink_system.Redis.{Redis}

pub record Memory : Type 0 where
  pub strings : Text → Option Text
  pub bits : Text → ℕ → Bool

abbrev pub empty : Memory
empty = record { strings = λ k. none; bits = λ k n. false }

abbrev pub memory : Redis
memory = record {
  Store = Memory;
  get = λ s k. s.strings k;
  set = λ s k v ttl. record s { strings = λ j. if text_eq k j then some v else s.strings j };
  get_bit = λ s k n. s.bits k n;
  set_bit =
      λ s k i. record s { bits = λ j n. if text_eq k j && (i == n) then true else s.bits j n };
  get-set = λ s k j v ttl. refl;
  get-set_bit = λ s k j i h. refl;
  get_bit-set_bit = λ s k j i n. refl;
  get_bit-set = λ s k j v ttl n h. refl;
}

-- ===== src/Spell/State.antt =====
-- internal/proxy/spell_queue.go and internal/modernworld/spell.go: the state of the spell queue.
-- Times are nanoseconds; `time.Time{}` is 0. The clock is an argument of every operation.
use redscarf_proxy.Prelude.{ℕ, ◌+◌, ◌*◌, ◌%◌, ◌^◌, Bool, List, Option}
use redscarf_proxy.Guid.{Guid128}

abbrev pub millisecond : ℕ
millisecond = 1000000

abbrev pub retry_lifetime : ℕ
retry_lifetime = 1500 * millisecond

abbrev pub retry_fuse : ℕ
retry_fuse = 50 * millisecond

abbrev pub spell_failed_not_ready : ℕ
spell_failed_not_ready = 67

abbrev pub spell_failed_spell_in_progress : ℕ
spell_failed_spell_in_progress = 105

pub data SpellQueueClass : Type 0 where
  queue_unknown queue_normal_spell queue_off_gcd : SpellQueueClass

pub record PendingCast : Type 0 where
  pub spell_id : ℕ
  pub server_spell_id : ℕ
  pub pet_guid : ℕ
  pub cast_item_guid : ℕ
  pub target_guid : ℕ
  pub client_cast_id : Guid128
  pub server_cast_id : Guid128
  pub visual_id : ℕ
  pub started : Bool

pub record Attempt : Type 0 where
  pub generation : ℕ
  pub spell_id : ℕ
  pub client_cast_id : Guid128
  pub cast_body : List ℕ
  pub created_at : ℕ
  pub retry_deadline : ℕ
  pub started : Bool
  pub retry_in_flight : Bool
  pub last_retry_at : ℕ
  pub retry_seq : ℕ
  pub settled_seq : ℕ
  pub class : SpellQueueClass
  pub need_retry : Bool

pub record HeldCast : Type 0 where
  pub spell_id : ℕ
  pub client_cast_id : Guid128
  pub cast_body : List ℕ

pub record SpellQueue : Type 0 where
  pub active : Option Attempt
  pub held : Option HeldCast
  pub generation : ℕ
  pub retired_spell_id : ℕ
  pub retired_generation : ℕ
  pub stale_until : ℕ
  pub stale_spell_id : ℕ
  pub abandoned : List PendingCast
  pub manual_retry : Bool

-- The fields of `proxySession` that the spell queue reads and writes. A map of Go is a function
-- into `Option`.
pub record Session : Type 0 where
  pub spell_queue : SpellQueue
  pub pending_casts : List PendingCast
  pub completed_cast_ids : ℕ → Option Guid128
  pub spell_visuals : ℕ → Option ℕ
  pub current_map_id : ℕ
  pub current_character : ℕ

-- `generation++` on a uint64, `RetrySeq++` on a uint32.
abbrev pub next_u64 : ℕ → ℕ
next_u64 n = (n + 1) % 2 ^ 64

abbrev pub next_u32 : ℕ → ℕ
next_u32 n = (n + 1) % 2 ^ 32

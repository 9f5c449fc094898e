-- ===== src/Clock/Packing.antt =====
-- A `struct event` through the event queue.
use rosx.Base.{ℕ, ◌/◌, ◌%◌, ◌^◌, ◌<◌, ◌≡◌, refl, arith}
use rosx.Clock.{Event, event_bytes, load_event, word}

word_back :
    (n : ℕ) → n < 2 ^ 32 → word (n % 256) (n / 256 % 256) (n / 65536 % 256) (n / 16777216 % 256) ≡ n
word_back n h = omega arith

-- The bytes of an event, read back.
pub load_event-event_bytes :
    (e old : Event) → e.group < 2 ^ 32 → e.flag < 2 ^ 32 → load_event (event_bytes e) old ≡ e
unfolding load_event
load_event-event_bytes e old hg hf = rw (word_back e.group hg, word_back e.flag hf) refl

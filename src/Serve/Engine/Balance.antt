-- ===== src/Serve/Engine/Balance.antt =====
-- The events and the streams of edgerag/serve/engine.py, one event at a time.
use edgerag.Prelude.Counting.{occ, occ-cons, occ-nil, eq_mark_self}
use edgerag.Prelude.{
  ℕ, List, ◌≡◌, if◌then◌else◌, ◌∷◌, false, true, ◌+◌, ◌==◌, ◌≤◌, arith, Bool-cases, [], inr, inl,
  eqb_refl,
}
use edgerag.Serve.Engine.{
  Engine, emit, TokenEvent, is_open, open_stream, close_stream, failed_event, stop_events,
  engine_stopped,
}
use edgerag.Sched.Scheduler.Queues.{occ-remove}

-- How many events of the log say that the stream of r is over.
unfoldable pub done_count : ℕ → List TokenEvent → ℕ
done_count r [] = 0
done_count r (e ∷ log) =
    (if e.request_id == r then (if e.done then 1 else 0) else 0) + done_count r log

-- Nothing was sent to a stream behind the event that it is over.
abbrev pub NothingBehind : List TokenEvent → Type 0
NothingBehind [] = Unit {0}
NothingBehind (e ∷ log) = (done_count e.request_id log ≡ 0) × NothingBehind log

-- A request is submitted and not yet seen, or has an open stream, or its stream is over, once.
pub record IsBalanced (log : List TokenEvent) (inbox emitters : List ℕ) : Type 0 where
  pub once : (r : ℕ) → done_count r log + occ r inbox + occ r emitters ≤ 1
  pub last : NothingBehind log

abbrev pub StreamsHold : Engine → Type 0
StreamsHold s = IsBalanced s.events s.inbox s.emitters

pub is_open-occ : (r : ℕ) (xs : List ℕ) → is_open r xs ≡ (if occ r xs == 0 then false else true)
is_open-occ r [] = ground (arith, occ-nil r)
is_open-occ r (x ∷ xs) = ground (arith, occ-cons r x xs, is_open-occ r xs)

occ-open_stream :
    (r c : ℕ) (xs : List ℕ)
    → occ r xs ≡ 0
    → occ c (open_stream r xs) ≡ occ c xs + (if r == c then 1 else 0)
occ-open_stream r c [] h = ground (arith, occ-cons c r [], occ-nil c)
occ-open_stream r c (x ∷ xs) h = ground (
  arith,
  h,
  occ-cons r x xs,
  occ-cons c x xs,
  occ-cons c x (open_stream r xs),
  occ-open_stream r c xs,
)

-- An event to an open stream that is not yet over.
pub emit-StreamsHold :
    (e : TokenEvent) (s : Engine) → e.done ≡ false → StreamsHold s → StreamsHold (emit e s)
unfolding emit done_count
emit-StreamsHold e s running h = elim (Bool-cases (is_open e.request_id s.emitters)) [
  | inr closed ↦ rw closed h
  | inl o ↦ rw o (record {
    once = λ r. ground (arith, h.once r, running);
    last = (ground (arith, h.once e.request_id, is_open-occ e.request_id s.emitters, o), h.last);
  })
]

-- The last event of a stream, which is closed with it.
pub closing-StreamsHold :
    (e : TokenEvent) (s : Engine)
    → e.done ≡ true
    → StreamsHold s
    → StreamsHold (close_stream e.request_id (emit e s))
unfolding emit done_count
closing-StreamsHold e s over h = elim (Bool-cases (is_open e.request_id s.emitters)) [
  | inr closed ↦ rw closed (record {
    once = λ r. ground (
      arith,
      h.once r,
      is_open-occ e.request_id s.emitters,
      closed,
      occ-remove e.request_id r s.emitters,
    );
    last = h.last;
  })
  | inl o ↦ rw o (record {
    once = λ r. ground (
      arith,
      h.once r,
      over,
      is_open-occ e.request_id s.emitters,
      o,
      occ-remove e.request_id r s.emitters,
    );
    last = (ground (arith, h.once e.request_id, is_open-occ e.request_id s.emitters, o), h.last);
  })
]

pub IsBalanced-move :
    (r : ℕ) (rs emitters : List ℕ) (log : List TokenEvent)
    → IsBalanced log (r ∷ rs) emitters
    → IsBalanced log rs (open_stream r emitters)
IsBalanced-move r rs emitters log h = record {
  once = λ c. ground (
    arith,
    h.once c,
    h.once r,
    occ-cons c r rs,
    occ-cons r r rs,
    eqb_refl r,
    occ-open_stream r c emitters (omega (arith, h.once r, occ-cons r r rs, eq_mark_self r)),
  );
  last = h.last;
}

stop-move :
    (r : ℕ) (rs inbox : List ℕ) (log : List TokenEvent)
    → IsBalanced log inbox (r ∷ rs)
    → IsBalanced (failed_event r engine_stopped ∷ log) inbox rs
unfolding done_count
stop-move r rs inbox log h = record {
  once = λ c. ground (arith, h.once c, occ-cons c r rs);
  last = (ground (arith, h.once r, occ-cons r r rs, eq_mark_self r), h.last);
}

-- The open streams are told that the engine has stopped, and are closed.
pub stop_events-IsBalanced :
    (rs inbox : List ℕ) (log : List TokenEvent)
    → IsBalanced log inbox rs
    → IsBalanced (stop_events rs log) inbox []
stop_events-IsBalanced [] inbox log h = h
stop_events-IsBalanced (r ∷ rs) inbox log h =
    stop_events-IsBalanced rs inbox (failed_event r engine_stopped ∷ log)
      (stop-move r rs inbox log h)

pub done_count-stop_events :
    (r : ℕ) (rs : List ℕ) (log : List TokenEvent)
    → done_count r (stop_events rs log) ≡ done_count r log + occ r rs
unfolding done_count
done_count-stop_events r [] log = omega (arith, occ-nil r)
done_count-stop_events r (x ∷ rs) log =
    ground
      (arith, done_count-stop_events r rs (failed_event x engine_stopped ∷ log), occ-cons r x rs)

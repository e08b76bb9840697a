-- ===== src/Proxy/Latency/Flushing.antt =====
-- maxLatencyWriter in whttp/proxy.go: what has been written is flushed, or a flush is on its way while
-- the writer is not stopped.
use mathlib.Core.List.{append_assoc}
use wgo.Common.{
  ◌≤◌, Bool-cases, ℕ, ◌+◌, ◌<◌, ◌≡◌, ◌⊎◌, inl, inr, refl, sym, ap, ◌∙◌, Bool, true, false, [], ◌++◌,
  Bytes, arith, append_nil,
}
use wgo.Proxy.Latency.{
  Timer, no_timer, running, idle, Writer, write, delayed_flush, stop, Reach, start, after_write,
  after_expiry, after_flush, after_stop,
}

-- Flushes on their way: a timer that waits, or a goroutine of one that ran out.
abbrev pub waits : Timer → ℕ
waits no_timer = 0
waits running = 1
waits idle = 0

abbrev pub flag : Bool → ℕ
flag true = 1
flag false = 0

-- `immediate` never changes; nothing is lost or put in another order; an immediate writer buffers
-- nothing and has no timer; until the writer is stopped the flag tells of exactly one flush on its
-- way, and without one nothing is buffered.
pub record Inv (immediate : Bool) (m : Writer) (all : Bytes) : Type 0 where
  pub same : m.immediate ≡ immediate
  pub whole : m.flushed ++ m.buffered ≡ all
  pub at_once : immediate ≡ true → m.buffered ≡ []
  pub one : m.is_stopped ≡ false → flag m.flush_pending ≡ waits m.timer + m.flushers
  pub none_left : m.is_stopped ≡ false → m.flush_pending ≡ false → m.buffered ≡ []

flag-le : (b : Bool) → flag b ≤ 1
flag-le true = omega arith
flag-le false = omega arith

written_whole : (f b p all : Bytes) → f ++ b ≡ all → f ++ (b ++ p) ≡ all ++ p
written_whole f b p all e = sym (append_assoc f b p) ∙ ap (λ (x : Bytes). x ++ p) e

write-Inv :
    (immediate : Bool) (m : Writer) (all p : Bytes)
    → Inv immediate m all
    → m.is_stopped ≡ false
    → Inv immediate (write p m) (all ++ p)
unfolding write
write-Inv immediate m all p inv h = record {
  same = ground (arith, inv.same);
  whole = ground (
    arith,
    written_whole m.flushed m.buffered p all inv.whole,
    append_nil (m.flushed ++ (m.buffered ++ p)),
  );
  at_once = λ i. ground (arith, i, inv.same);
  one = λ s. ground (arith, inv.one h, inv.same);
  none_left = λ s q. ground (arith, q);
}

expiry-Inv :
    (immediate : Bool) (m : Writer) (all : Bytes)
    → Inv immediate m all
    → m.timer ≡ running
    → Inv immediate (record m { timer = idle; flushers = m.flushers + 1 }) all
expiry-Inv immediate m all inv h = record {
  same = inv.same;
  whole = inv.whole;
  at_once = inv.at_once;
  one = λ s. omega (arith, inv.one s, ap waits h);
  none_left = inv.none_left;
}

flush-Inv :
    (immediate : Bool) (m : Writer) (all : Bytes)
    → Inv immediate m all
    → 0 < m.flushers
    → Inv immediate (delayed_flush m) all
unfolding delayed_flush
flush-Inv immediate m all inv h = record {
  same = inv.same;
  whole = append_nil (m.flushed ++ m.buffered) ∙ inv.whole;
  at_once = λ i. refl;
  one = λ s. omega (arith, inv.one s, flag-le m.flush_pending, h);
  none_left = λ s q. refl;
}

stop-Inv :
    (immediate : Bool) (m : Writer) (all : Bytes) → Inv immediate m all → Inv immediate (stop m) all
unfolding stop
stop-Inv immediate m all inv = record {
  same = ground (arith, inv.same);
  whole = ground (arith, inv.whole);
  at_once = λ i. ground (arith, inv.at_once i);
  one = λ s. ground (arith, s);
  none_left = λ s q. ground (arith, s);
}

Reach-Inv :
    (immediate : Bool) (m : Writer) (all : Bytes) → Reach immediate m all → Inv immediate m all
Reach-Inv immediate _ _ start = record {
  same = refl;
  whole = refl;
  at_once = λ i. refl;
  one = λ s. refl;
  none_left = λ s q. refl;
}
Reach-Inv immediate _ _ (after_write {m = m} {all = all} p r s) =
    write-Inv immediate m all p (Reach-Inv immediate m all r) s
Reach-Inv immediate _ _ (after_expiry {m = m} {all = all} r e) =
    expiry-Inv immediate m all (Reach-Inv immediate m all r) e
Reach-Inv immediate _ _ (after_flush {m = m} {all = all} r e) =
    flush-Inv immediate m all (Reach-Inv immediate m all r) e
Reach-Inv immediate _ _ (after_stop {m = m} {all = all} r e) =
    stop-Inv immediate m all (Reach-Inv immediate m all r)

-- In every state that a writer reaches, what was flushed and what is buffered are together all that
-- was written, in order; a writer with negative latency has nothing buffered; and while it is not
-- stopped, either nothing is buffered or exactly one flush is on its way, by a timer that runs or a
-- goroutine at the lock.
pub Reach-flushed :
    (immediate : Bool) (m : Writer) (all : Bytes)
    → Reach immediate m all
    → (m.flushed ++ m.buffered ≡ all)
      × (immediate ≡ true → m.buffered ≡ [])
      × (m.is_stopped ≡ false → (m.buffered ≡ []) ⊎ (waits m.timer + m.flushers ≡ 1))
Reach-flushed immediate m all r =
    let inv = Reach-Inv immediate m all r in
    (
      inv.whole,
      inv.at_once,
      λ s. elim (Bool-cases m.flush_pending) [
        | inl e ↦ inr (omega (arith, inv.one s, ap flag e))
        | inr e ↦ inl (inv.none_left s e)
      ],
    )

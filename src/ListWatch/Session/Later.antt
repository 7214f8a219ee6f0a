-- ===== src/ListWatch/Session/Later.antt =====
-- How a session changes, whatever the loop does: what its channel has carried only grows, at the end
-- and by events of known kinds, and the context stays done.
use mathlib.Core.List.{append_assoc, append-nil}
use gokube.Prelude.{
  ℕ, ◌≤◌, ◌<◌, Text, Bool, true, false, List, [], ◌++◌, length, All, All-append, ◌≡◌, refl, ◌∙◌,
  sym, ap, ◌⊎◌, arith,
}
use gokube.ListWatch.{Event, validate, error_event}
use gokube.ListWatch.Session.{Session, World, sent}

-- An event of the watch: an error, or an event under the prefix.
abbrev pub IsFrom : Text → Event → Type 0
IsFrom prefix e = ((message : Text) × (e ≡ error_event message)) ⊎ (e.prefix ≡ prefix)

-- An event that its reader may get: an error with a text alone, or a valid event under the prefix.
abbrev pub IsKnown : Text → Event → Type 0
IsKnown prefix e =
    ((message : Text) × (e ≡ error_event message)) ⊎ ((validate e ≡ true) × (e.prefix ≡ prefix))

-- What a session shows of its channel and its context.
pub record View : Type 0 where
  pub carried : List Event
  pub waiting_events : List Event
  pub done : Bool
  pub closed : Bool
  pub panicked : Bool
  pub clock : ℕ

abbrev pub view : Session → View
view s = record {
  carried = sent s;
  waiting_events = s.buffer;
  done = s.done;
  closed = s.closed;
  panicked = s.panicked;
  clock = s.clock;
}

pub record Later (w : World) (s t : View) : Type 0 where
  pub more : List Event
  pub grown : t.carried ≡ s.carried ++ more
  pub known : All (IsKnown w.prefix) more
  pub fits : length s.waiting_events ≤ w.capacity → length t.waiting_events ≤ w.capacity
  pub stays_done : s.done ≡ true → t.done ≡ true
  pub stays_open : s.closed ≡ false → (t.closed ≡ false) × (t.panicked ≡ s.panicked)
  pub ticks : s.clock ≤ t.clock
  pub cancelled :
      (c : ℕ) → w.cancels c ≡ true → (c < s.clock → s.done ≡ true) → c < t.clock → t.done ≡ true

module _ (w : World) where
  pub Later-refl : (s : View) → Later w s s
  Later-refl s = record {
    more = [];
    grown = sym (append-nil s.carried);
    known = tt;
    fits = λ h. h;
    stays_done = λ h. h;
    stays_open = λ h. (h, refl);
    ticks = omega arith;
    cancelled = λ c h k. k;
  }

  pub Later-trans : {s t u : View} → Later w s t → Later w t u → Later w s u
  Later-trans {s} p q = record {
    more = p.more ++ q.more;
    grown = q.grown ∙ ap (λ xs. xs ++ q.more) p.grown ∙ append_assoc s.carried p.more q.more;
    known = All-append (IsKnown w.prefix) p.more q.more p.known q.known;
    fits = λ h. q.fits (p.fits h);
    stays_done = λ h. q.stays_done (p.stays_done h);
    stays_open = λ h. let (o, e) = p.stays_open h in let (o', e') = q.stays_open o in (o', e' ∙ e);
    ticks = omega (arith, p.ticks, q.ticks);
    cancelled = λ c h k. q.cancelled c h (p.cancelled c h k);
  }

  -- The same context, and a channel that has carried known events since.
  pub Later-carried :
      (s t : View) (more : List Event)
      → t.carried ≡ s.carried ++ more
      → All (IsKnown w.prefix) more
      → (length s.waiting_events ≤ w.capacity → length t.waiting_events ≤ w.capacity)
      → t ≡ record s { carried = t.carried; waiting_events = t.waiting_events }
      → Later w s t
  Later-carried s t more e k f h = record {
    more = more;
    grown = e;
    known = k;
    fits = f;
    stays_done = λ f. rw h f;
    stays_open = λ f. (rw h f, ap (λ (v : View). v.panicked) h);
    ticks = rw h (omega arith);
    cancelled = λ c f k l. rw h (k (rw h at l));
  }

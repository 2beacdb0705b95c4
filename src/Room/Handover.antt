-- ===== src/Room/Handover.antt =====
-- internal/room/room.go: send, the loop of Run and stop, as steps of the senders and the room.
--
-- A command is a number. A sender takes `sendMu`, looks at `closed` and comes to its select in steps
-- of their own, and what the room does may come between any two of them. The room takes that lock
-- for one assignment, which is one step.
pub mod Conserved
use crdt_server.Base.{
  ℕ, ◌+◌, ◌<◌, ◌≡◌, List, [], ◌∷◌, ◌++◌, Bool, true, false, length, Option, none, some,
}

-- Where the room is: in its loop; from the start of stop on; past `close(r.done)`; past
-- `r.closed = true`; past the loop that empties the mailbox.
pub data Phase : Type 0 where
  running stopping done draining gone : Phase

pub record Mailbox : Type 0 where
  pub capacity : ℕ
  pub phase : Phase
  -- r.mailbox
  pub queued : List ℕ
  -- The sender that holds the lock, with whether it has looked at `closed` and gone on.
  pub holder : Option (ℕ × Bool)
  -- The commands for which send gave nil, and those for which it gave ErrClosed.
  pub accepted : List ℕ
  pub refused : List ℕ
  -- The commands that handle got, and those that stop took out.
  pub handled : List ℕ
  pub drained : List ℕ

unfoldable pub new_mailbox : ℕ → Mailbox
new_mailbox capacity = record {
  capacity = capacity;
  phase = running;
  queued = [];
  holder = none;
  accepted = [];
  refused = [];
  handled = [];
  drained = [];
}

-- `r.closed`
abbrev pub is_closed : Phase → Bool
is_closed running = false
is_closed stopping = false
is_closed done = false
is_closed draining = true
is_closed gone = true

-- `<-r.done` can be received.
abbrev pub is_done : Phase → Bool
is_done running = false
is_done stopping = false
is_done done = true
is_done draining = true
is_done gone = true

pub data Step (m : Mailbox) : Mailbox → Type 0 where
  -- `r.sendMu.Lock()` of a sender
  lock : (c : ℕ) → m.holder ≡ none → Step m (record m { holder = some (c, false) })
  -- `if r.closed { return ErrClosed }`
  turn_away :
      (c : ℕ)
      → m.holder ≡ some (c, false)
      → is_closed m.phase ≡ true
      → Step m (record m { holder = none; refused = m.refused ++ (c ∷ []) })
  go_on :
      (c : ℕ)
      → m.holder ≡ some (c, false)
      → is_closed m.phase ≡ false
      → Step m (record m { holder = some (c, true) })
  -- `case r.mailbox <- c`
  accept :
      (c : ℕ)
      → m.holder ≡ some (c, true)
      → length m.queued < m.capacity
      → Step m (record m {
        holder = none;
        queued = m.queued ++ (c ∷ []);
        accepted = m.accepted ++ (c ∷ []);
      })
  -- `case <-r.done`
  refuse :
      (c : ℕ)
      → m.holder ≡ some (c, true)
      → is_done m.phase ≡ true
      → Step m (record m { holder = none; refused = m.refused ++ (c ∷ []) })
  -- `case c := <-r.mailbox` in Run
  handle :
      (c : ℕ) (rest : List ℕ)
      → m.phase ≡ running
      → m.queued ≡ c ∷ rest
      → Step m (record m { queued = rest; handled = m.handled ++ (c ∷ []) })
  -- stop is called
  begin_stop : m.phase ≡ running → Step m (record m { phase = stopping })
  -- `close(r.done)`
  close_done : m.phase ≡ stopping → Step m (record m { phase = done })
  -- `r.closed = true` under the lock
  set_closed : m.phase ≡ done → m.holder ≡ none → Step m (record m { phase = draining })
  -- `case c := <-r.mailbox` in stop
  drain :
      (c : ℕ) (rest : List ℕ)
      → m.phase ≡ draining
      → m.queued ≡ c ∷ rest
      → Step m (record m { queued = rest; drained = m.drained ++ (c ∷ []) })
  -- `default: return`
  leave : m.phase ≡ draining → m.queued ≡ [] → Step m (record m { phase = gone })

pub data Reach (s : Mailbox) : Mailbox → Type 0 where
  here : Reach s s
  next : {m n : Mailbox} → Reach s m → Step m n → Reach s n

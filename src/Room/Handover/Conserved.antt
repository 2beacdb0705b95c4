-- ===== src/Room/Handover/Conserved.antt =====
-- No command is lost between send and the end of a room.
use crdt_server.Base.{
  Bool, Option, none, some, ℕ, ◌≡◌, refl, sym, ap, ◌∙◌, List, [], ◌∷◌, ◌++◌, append_assoc,
  append-nil, true, false,
}
use crdt_server.Room.Handover.{
  Phase, draining, gone, Mailbox, new_mailbox, is_closed, Step, lock, turn_away, go_on, accept,
  refuse, handle, begin_stop, close_done, set_closed, drain, leave, Reach, here, next,
}

-- What was accepted was handled, or taken out when the room stopped, or is still queued, and the
-- three lists are in the order of the calls. Nothing is taken out before the room is closed, and
-- nothing is queued once it is gone. A sender that went on past its look holds the lock, so the room
-- is not closed before it is through.
record IsConserved (m : Mailbox) : Type 0 where
  conserved : m.accepted ≡ m.handled ++ (m.drained ++ m.queued)
  undrained : is_closed m.phase ≡ false → m.drained ≡ []
  empty : m.phase ≡ gone → m.queued ≡ []
  locked : (c : ℕ) → m.holder ≡ some (c, true) → is_closed m.phase ≡ false

true-false : {A : Type 0} → true ≡ false → A
true-false h = cc

-- A command that is handled is the first of the queue.
moved : (handled rest : List ℕ) (c : ℕ) → handled ++ (c ∷ rest) ≡ (handled ++ (c ∷ [])) ++ rest
moved handled rest c = sym (append_assoc handled (c ∷ []) rest)

none-some : {x : ℕ × Bool} → ◌≡◌ {A = Option (ℕ × Bool)} none (some x) → ⊥
none-some h = cc

gone-closed : (p : Phase) → p ≡ gone → is_closed p ≡ true
gone-closed p h = ap is_closed h

Step-IsConserved : {m n : Mailbox} → Step m n → IsConserved m → IsConserved n
Step-IsConserved (lock c h) w = record {
  conserved = w.conserved;
  undrained = w.undrained;
  empty = w.empty;
  locked = λ d k. cc;
}
Step-IsConserved (turn_away c h o) w = record {
  conserved = w.conserved;
  undrained = w.undrained;
  empty = w.empty;
  locked = λ d k. cc;
}
Step-IsConserved (go_on c h o) w = record {
  conserved = w.conserved;
  undrained = w.undrained;
  empty = w.empty;
  locked = λ d k. o;
}
Step-IsConserved {m} (accept c h l) w = record {
  conserved =
      ap (λ xs. xs ++ (c ∷ [])) w.conserved
      ∙ append_assoc m.handled (m.drained ++ m.queued) (c ∷ [])
      ∙ ap (λ xs. m.handled ++ xs) (append_assoc m.drained m.queued (c ∷ []));
  undrained = w.undrained;
  empty = λ g. true-false (sym (gone-closed m.phase g) ∙ w.locked c h);
  locked = λ d k. cc;
}
Step-IsConserved (refuse c h d) w = record {
  conserved = w.conserved;
  undrained = w.undrained;
  empty = w.empty;
  locked = λ e k. cc;
}
Step-IsConserved {m} (handle c rest r q) w =
    let none_drained = w.undrained (ap is_closed r) in
    record {
      conserved =
          w.conserved
          ∙ ap (λ xs. m.handled ++ (xs ++ m.queued)) none_drained
          ∙ ap (λ xs. m.handled ++ xs) q
          ∙ moved m.handled rest c
          ∙ ap (λ xs. (m.handled ++ (c ∷ [])) ++ (xs ++ rest)) (sym none_drained);
      undrained = w.undrained;
      empty = λ g. true-false (sym (gone-closed m.phase g) ∙ ap is_closed r);
      locked = w.locked;
    }
Step-IsConserved (begin_stop r) w = record {
  conserved = w.conserved;
  undrained = λ h. w.undrained (ap is_closed r);
  empty = λ g. cc;
  locked = λ c h. refl;
}
Step-IsConserved (close_done r) w = record {
  conserved = w.conserved;
  undrained = λ h. w.undrained (ap is_closed r);
  empty = λ g. cc;
  locked = λ c h. refl;
}
Step-IsConserved (set_closed r o) w = record {
  conserved = w.conserved;
  undrained = λ h. true-false h;
  empty = λ g. cc;
  locked = λ c h. absurd (none-some (sym o ∙ h));
}
Step-IsConserved {m} (drain c rest d q) w = record {
  conserved =
      w.conserved
      ∙ ap (λ xs. m.handled ++ (m.drained ++ xs)) q
      ∙ ap (λ xs. m.handled ++ xs) (moved m.drained rest c);
  undrained = λ h. true-false (sym (ap is_closed d) ∙ h);
  empty = λ g. let f : draining ≡ gone = sym d ∙ g in cc;
  locked = w.locked;
}
Step-IsConserved (leave d q) w = record {
  conserved = w.conserved;
  undrained = λ h. true-false h;
  empty = λ g. q;
  locked = λ c h. true-false (sym (ap is_closed d) ∙ w.locked c h);
}

Reach-IsConserved : {s m : Mailbox} → IsConserved s → Reach s m → IsConserved m
Reach-IsConserved w here = w
Reach-IsConserved w (next r step) = Step-IsConserved step (Reach-IsConserved w r)

new_mailbox-IsConserved : (capacity : ℕ) → IsConserved (new_mailbox capacity)
unfolding new_mailbox
new_mailbox-IsConserved capacity = record {
  conserved = refl;
  undrained = λ h. refl;
  empty = λ g. refl;
  locked = λ c h. refl;
}

-- Once a room is gone, its mailbox is empty and every command that send accepted was handled by the
-- room or taken out by stop, in the order in which they were accepted, whatever the senders and the
-- room did and when.
pub Reach-accepted :
    (capacity : ℕ) (m : Mailbox)
    → Reach (new_mailbox capacity) m
    → m.phase ≡ gone
    → (m.queued ≡ []) × (m.accepted ≡ m.handled ++ m.drained)
Reach-accepted capacity m r g =
    let w = Reach-IsConserved (new_mailbox-IsConserved capacity) r in
    (
      w.empty g,
      w.conserved
          ∙ ap (λ xs. m.handled ++ (m.drained ++ xs)) (w.empty g)
          ∙ ap (λ xs. m.handled ++ xs) (append-nil m.drained),
    )

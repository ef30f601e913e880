-- ===== src/Command/Lifecycle.antt =====
-- The legal histories of one command, over `next_status`.
use iotaps.Common.{◌≡◌, refl, ◌⊎◌, inl, true, Option, none, some, List, [], ◌∷◌, ◌++◌, arith}
use iotaps.Command.Status.{CommandStatus, CommandEvent, is_terminal, next_status, follow}

-- No event is legal in a terminal status.
pub terminal_stuck :
    (s : CommandStatus) (e : CommandEvent) → is_terminal s ≡ true → next_status (some s) e ≡ none
unfolding is_terminal next_status
terminal_stuck s e h = ground arith

follow_terminal :
    (es : List CommandEvent) (s t : CommandStatus)
    → is_terminal s ≡ true
    → follow (some s) es ≡ some t
    → es ≡ []
unfolding follow
follow_terminal [] s t h f = refl
follow_terminal (e ∷ es) s t h f = ground (arith, terminal_stuck s e h)

follow_sent :
    (es : List CommandEvent) (t : CommandStatus)
    → follow (some CommandStatus.sent) es ≡ some t
    → (es ≡ [])
      ⊎ (es ≡ CommandEvent.ack ∷ []) × (t ≡ CommandStatus.confirmed)
      ⊎ (es ≡ CommandEvent.timeout ∷ []) × (t ≡ CommandStatus.unacknowledged)
unfolding follow next_status is_terminal
follow_sent [] t f = inl refl
follow_sent (CommandEvent.ack ∷ es) t f =
    ground (arith, follow_terminal es CommandStatus.confirmed t refl f)
follow_sent (CommandEvent.timeout ∷ es) t f =
    ground (arith, follow_terminal es CommandStatus.unacknowledged t refl f)
follow_sent (_ ∷ es) t f = ground arith

-- A command is confirmed in exactly two ways: issued to an online device and acknowledged, or
-- queued for an offline one, flushed on its reconnect, and acknowledged.
pub confirmed_histories :
    (es : List CommandEvent)
    → follow none es ≡ some CommandStatus.confirmed
    → (es ≡ CommandEvent.issue_online ∷ CommandEvent.ack ∷ [])
      ⊎ (es ≡ CommandEvent.issue_offline ∷ CommandEvent.reconnect_flush ∷ CommandEvent.ack ∷ [])
unfolding follow next_status
confirmed_histories [] f = ground arith
confirmed_histories (CommandEvent.issue_online ∷ es) f =
    ground (arith, follow_sent es CommandStatus.confirmed f)
confirmed_histories (CommandEvent.issue_offline ∷ []) f = ground arith
confirmed_histories (CommandEvent.issue_offline ∷ CommandEvent.reconnect_flush ∷ es) f =
    ground (arith, follow_sent es CommandStatus.confirmed f)
confirmed_histories (CommandEvent.issue_offline ∷ _ ∷ es) f = ground arith
confirmed_histories (_ ∷ es) f = ground arith

-- One status comes out of another by legal events.
abbrev pub Advances : CommandStatus → CommandStatus → Type 0
Advances s t = (es : List CommandEvent) × (follow (some s) es ≡ some t)

pub Advances-refl : (s : CommandStatus) → Advances s s
unfolding follow
Advances-refl s = ([], refl)

pub Advances-one :
    (s t : CommandStatus) (e : CommandEvent) → next_status (some s) e ≡ some t → Advances s t
unfolding follow
Advances-one s t e h = (e ∷ [], ground arith)

follow-append :
    (es fs : List CommandEvent) (s t u : CommandStatus)
    → follow (some s) es ≡ some t
    → follow (some t) fs ≡ some u
    → follow (some s) (es ++ fs) ≡ some u
unfolding follow
follow-append [] fs s t u p q = ground arith
follow-append (e ∷ es) fs s t u p q =
    step (next_status (some s) e) p (λ v h. follow-append es fs v t u h q)
  where
    step :
        (o : Option CommandStatus)
        → elim o [ none ↦ none | some v ↦ follow (some v) es ] ≡ some t
        → ((v : CommandStatus) → follow (some v) es ≡ some t → follow (some v) (es ++ fs) ≡ some u)
        → elim o [ none ↦ none | some v ↦ follow (some v) (es ++ fs) ] ≡ some u
    step none h k = ground arith
    step (some v) h k = k v h

pub Advances-trans : (s t u : CommandStatus) → Advances s t → Advances t u → Advances s u
Advances-trans s t u (es, p) (fs, q) = (es ++ fs, follow-append es fs s t u p q)

pub Advances-terminal : (s t : CommandStatus) → is_terminal s ≡ true → Advances s t → t ≡ s
unfolding follow
Advances-terminal s t h (es, p) = ground (arith, follow_terminal es s t h p)

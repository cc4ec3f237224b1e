-- ===== src/Single/Outcome.antt =====
-- How the error of writeItem tells what became of the write.
use gopcda.Prelude.{
  ◌≡◌, refl, Bool, true, false, Option, none, some, if◌then◌else◌, Bool-cases, Option-cases, inl,
  inr,
}
use gopcda.Errors.{
  Error, errors_is, errors_is-joined, joined, join, sentinel, write_acknowledged,
  write_outcome_unknown,
}
use gopcda.Prelude.Int.{is_negative}
use gopcda.Result.{Result-cases}
use gopcda.Group.State.{Reply, failed, answered}
use gopcda.Values.Data.{Value}
use gopcda.Values.Runtime.{Runtime}
use gopcda.Values.Encode.{write_variant}
use gopcda.Single.{
  OneResponse, Exchange, unless_error, deferred, with_item, with_group, with_remote,
  with_single_item, Stage, unsent, refused, unconfirmed, confirmed, stage_of, Progress, not_sent,
  write_single_value, write_action, check_written, after_write, write_item,
}

module _ {S : Type 0} (idle : S) (action : S × Option Error) (P : S × Option Error → Type 0)
    (stop : (e : Error) → P (idle, some e))
    (keep : (c : Option Error) (r : S × Option Error) → P r → P (deferred idle action c r))
    (act : P action) where
  guarded : (c : Option Error) (r : S × Option Error) → P r → P (unless_error idle action c r)
  unfolding unless_error
  guarded none r h = h
  guarded (some e) r h = stop e

  with_item-keeps : (x : Exchange) → P (with_item idle action x)
  unfolding with_item
  with_item-keeps x =
      guarded _ _ (keep _ _ (guarded _ _ (guarded _ _ (guarded _ _ (keep _ _ act)))))

  with_group-keeps : (x : Exchange) → P (with_group idle action x)
  unfolding with_group
  with_group-keeps x = elim (Option-cases x.decode_reference) [
    | inr (e, h) ↦ rw (h, with_group) (keep _ _ (stop _))
    | inl h ↦ elim (Bool-cases x.same_exporter) [
      | inl s ↦ rw (h, s, with_group) (keep _ _ (with_item-keeps x))
      | inr s ↦ rw (h, s, with_group) (keep _ _ (stop _))
    ]
  ]

  with_remote-keeps : (x : Exchange) → P (with_remote idle action x)
  unfolding with_remote
  with_remote-keeps x = elim (Bool-cases x.has_remote_unknown) [
    | inl h ↦
        rw (h, with_remote)
          (guarded _ _ (keep _ _ (guarded _ _ (guarded _ _ (with_group-keeps x)))))
    | inr h ↦ rw (h, with_remote) (stop _)
  ]

  -- What the deferred calls keep of the action holds at the end.
  with_single_item-keeps : (x : Exchange) → P (with_single_item idle action x)
  unfolding with_single_item
  with_single_item-keeps x = guarded _ _ (guarded _ _ (with_remote-keeps x))

-- What the error says of a write: no error only of a confirmed one, ErrWriteOutcomeUnknown of one
-- that was sent and not confirmed, and ErrWriteAcknowledged of a confirmed one.
abbrev pub Tells : Stage → Option Error → Type 0
Tells confirmed none = Unit {0}
Tells confirmed (some e) = errors_is write_acknowledged e ≡ true
Tells unconfirmed (some e) = errors_is write_outcome_unknown e ≡ true
Tells unsent (some e) = Unit {0}
Tells refused (some e) = Unit {0}
Tells _ none = ⊥

-- What holds before writeItem adds ErrWriteAcknowledged.
abbrev TellsSent : Stage → Bool → Option Error → Type 0
TellsSent confirmed a e = a ≡ true
TellsSent unconfirmed a none = ⊥
TellsSent unconfirmed a (some e) = (a ≡ false) × (errors_is write_outcome_unknown e ≡ true)
TellsSent unsent a none = ⊥
TellsSent unsent a (some e) = a ≡ false
TellsSent refused a none = ⊥
TellsSent refused a (some e) = a ≡ false

abbrev IsSettled : Progress × Option Error → Type 0
IsSettled r = TellsSent r.0.stage r.0.acknowledged r.1

TellsSent-join :
    (s : Stage) (a : Bool) (e c : Option Error) → TellsSent s a e → TellsSent s a (join e c)
unfolding errors_is
TellsSent-join confirmed a e c h = h
TellsSent-join unconfirmed a none c h = absurd h
TellsSent-join unconfirmed a (some e) none h = h
TellsSent-join unconfirmed a (some e) (some f) h = (h.0, rw (h.1, errors_is) refl)
TellsSent-join unsent a none c h = absurd h
TellsSent-join unsent a (some e) none h = h
TellsSent-join unsent a (some e) (some f) h = h
TellsSent-join refused a none c h = absurd h
TellsSent-join refused a (some e) none h = h
TellsSent-join refused a (some e) (some f) h = h

write_action-IsSettled : (reply : Reply OneResponse) → IsSettled (write_action reply)
unfolding write_action write_single_value stage_of check_written
write_action-IsSettled (failed e) = (refl, errors_is-joined write_outcome_unknown e)
write_action-IsSettled (answered r) = elim (Bool-cases (is_negative r.hresult)) [
  | inl a ↦ rw a refl
  | inr a ↦ elim (Bool-cases r.has_error) [
    | inr b ↦ rw (a, b) (refl, errors_is-joined write_outcome_unknown _)
    | inl b ↦ elim (Bool-cases (is_negative r.item_error)) [
      | inl c ↦ rw (a, b, c) refl
      | inr c ↦ rw (a, b, c) refl
    ]
  ]
]

TellsSent-nil : (s : Stage) (a : Bool) → TellsSent s a none → Tells s none
TellsSent-nil confirmed a h = tt
TellsSent-nil unconfirmed a h = absurd h
TellsSent-nil unsent a h = absurd h
TellsSent-nil refused a h = absurd h

TellsSent-some :
    (s : Stage) (a : Bool) (e : Error)
    → TellsSent s a (some e)
    → Tells s (if a then some (joined (sentinel write_acknowledged) e) else some e)
TellsSent-some confirmed a e h = rw h (errors_is-joined write_acknowledged e)
TellsSent-some unconfirmed a e h = rw (h.0) (h.1)
TellsSent-some unsent a e h = rw h tt
TellsSent-some refused a e h = rw h tt

after_write-Tells :
    (r : Progress × Option Error) → IsSettled r → Tells (after_write r).0.stage (after_write r).1
after_write-Tells (p, none) h = TellsSent-nil p.stage p.acknowledged h
after_write-Tells (p, some e) h = TellsSent-some p.stage p.acknowledged e h

-- The error of writeItem on its way through every call: without an error the server has confirmed
-- the write; when it has and a later call fails, the error is an ErrWriteAcknowledged; when the
-- request was sent and neither confirmed nor refused, it is an ErrWriteOutcomeUnknown.
pub write_item-Tells :
    (rt : Runtime) (x : Exchange) (reply : Reply OneResponse) (value : Value)
    → Tells (write_item rt x reply value).0.stage (write_item rt x reply value).1
unfolding write_item deferred
write_item-Tells rt x reply value = elim (Result-cases (write_variant rt value)) [
  | inl (e, h) ↦ rw (h, write_item) tt
  | inr (v, h) ↦
      rw (h, write_item)
        (after_write-Tells _ (
          with_single_item-keeps not_sent (write_action reply) IsSettled (λ e. refl)
            (λ c r k. TellsSent-join r.0.stage r.0.acknowledged r.1 c k)
            (write_action-IsSettled reply) x))
]

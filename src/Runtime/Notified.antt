-- ===== src/Runtime/Notified.antt =====
-- What `notify` of packages/server/src/runtime.ts has stored when it answers.
use haikit.Prelude.{
  ℕ, ◌≡◌, refl, ap, false, Bool-cases, arith, inl, inr, Option, none, some, Text, Result, ok, ◌>>=◌,
  pure, raise, rethrow, bind_by,
}
use haikit.Core.Json.{Json}
use haikit.Core.Types.{NoticeRecord}
use haikit.Runtime.Types.{Hai}
use haikit.Runtime.Notify.{
  Notice, NoticeModel, told, untold, other, checked_model, body_of, check_surface, put_checked,
  notify,
}

-- The text that a notice has for the model: a wake notice has one.
unfoldable pub Tells : Notice → Json → Option Text → Type 0
Tells n parsed (some t) = n.model parsed ≡ ok (told t)
Tells n parsed none = (n.model parsed ≡ ok untold) × (n.wake ≡ false)

-- A notice of this name, with this payload, text and surface, was stored, under the number that is
-- answered.
unfoldable pub Put :
    {W : Type 0} → Hai W → Text → Notice → Json → Option Text → Option Text → ℕ → W → Type 0
Put {W} hai id n payload model handle seq after =
    (before : W) × (stored : NoticeRecord) × (hai.store.put_notice
        (record {
          conversation_id = id;
          name = n.name;
          version = n.version;
          wake = n.wake;
          payload = payload;
          model = model;
          handle = handle;
          replaces = none;
        })
        before
      ≡ (ok stored, after))
    × (stored.seq ≡ seq)

unfoldable pub Notified :
    {W : Type 0} → Hai W → Text → Notice → Json → Option Text → Result ℕ → W → Type 0
Notified hai id n payload handle (Result.err e) after = Unit
Notified hai id n payload handle (Result.ok seq) after =
    (parsed : Json) × (n.parse payload ≡ ok parsed)
    × (model : Option Text) × Tells n parsed model
    × Put hai id n parsed model handle seq after

checked_model-Tells :
    (n : Notice) (parsed : Json) (returned : NoticeModel) (model : Option Text)
    → n.model parsed ≡ ok returned
    → checked_model n returned ≡ ok model
    → Tells n parsed model
unfolding checked_model Tells
checked_model-Tells n parsed (told t) none h e = cc
checked_model-Tells n parsed (told t) (some t') h e = cc
checked_model-Tells n parsed untold none h e = elim (Bool-cases n.wake) [
  | inl p ↦ grind (arith, p, e)
  | inr p ↦ (h, p)
]
checked_model-Tells n parsed untold (some t) h e = elim (Bool-cases n.wake) [
  | inl p ↦ grind (arith, p, e)
  | inr p ↦ grind (arith, p, e)
]
checked_model-Tells n parsed other model h e = cc

module _ {W : Type 0} (hai : Hai W) where
  put-Notified :
      (id : Text) (n : Notice) (payload parsed : Json) (model handle : Option Text) (w : W)
      → n.parse payload ≡ ok parsed
      → Tells n parsed model
      → Notified hai id n payload handle
          (put_checked hai id n parsed model handle w).0
          (put_checked hai id n parsed model handle w).1
  unfolding put_checked Notified Put pure
  put-Notified id n payload parsed model handle w h t =
      let Q = Notified hai id n payload handle in
      bind_by Q (check_surface hai id n.name handle) _ w
        (λ _ _.
          bind_by Q (hai.store.put_notice _) _ (check_surface hai id n.name handle w).1
            (λ stored e.
              let after =
                (hai.store.put_notice (body_of id n parsed model handle)
                  (check_surface hai id n.name handle w).1).1 in
              (parsed, h, model, t, (_, stored, ap (λ r. (r, after)) e, refl)))
            (λ x _. tt))
        (λ x _. tt)

  -- A call of `notify` that answers has stored one notice for this conversation, under the number that
  -- it answers: with the notice's name, version and wake, with the surface that was named, replacing
  -- none, with the payload that the notice's schema made of what was sent, and with the text that the
  -- notice's model made of that, which a wake notice always has.
  pub notify-Notified :
      (id : Text) (n : Notice) (payload : Json) (handle : Option Text) (w : W)
      → Notified hai id n payload handle
          (notify hai id n payload handle w).0
          (notify hai id n payload handle w).1
  unfolding notify Notified rethrow raise Tells Put ◌>>=◌
  notify-Notified id n payload handle w = elim (Bool-cases n.registered) [
    | inr p ↦ rw p tt
    | inl p ↦
        let Q = Notified hai id n payload handle in
        rw p (
          bind_by Q (rethrow (n.parse payload)) _ w
            (λ parsed h.
              bind_by Q (rethrow (n.model parsed)) _ w
                (λ returned g.
                  bind_by Q (rethrow (checked_model n returned)) _ w
                    (λ model c.
                      put-Notified id n payload parsed model handle w h
                        (checked_model-Tells n parsed returned model g c))
                    (λ _ _. tt))
                (λ _ _. tt))
            (λ _ _. tt))
  ]

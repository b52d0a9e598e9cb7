-- ===== src/Main/Sessions/Picked.antt =====
-- The calls of one kind among those of `main`.
use hispec_tib.Prelude.{◌≡◌, refl, sym, ap, ap₂, ◌∙◌, List, [], ◌∷◌, ◌++◌, append_assoc, map}
use hispec_tib.Main.{Published}
use hispec_tib.Commons.Mqtt.{MqttCall}
use hispec_tib.Main.Watchdog.{Feed}
use hispec_tib.Main.Sessions.{MainCall, mqtt, feed, mqtt_publish}

unfoldable pub pick : {B : Type 0} → (MainCall → List B) → List MainCall → List B
pick f [] = []
pick f (c ∷ cs) = f c ++ pick f cs

module _ {B : Type 0} (f : MainCall → List B) where
  pub pick-append : (xs ys : List MainCall) → pick f (xs ++ ys) ≡ pick f xs ++ pick f ys
  unfolding pick
  pick-append [] ys = refl
  pick-append (c ∷ xs) ys =
      ap (λ r. f c ++ r) (pick-append xs ys) ∙ sym (append_assoc (f c) (pick f xs) (pick f ys))

  module _ {A : Type 0} (call : A → MainCall) where
    -- Calls of another kind.
    pub pick_none : ((a : A) → f (call a) ≡ []) → (xs : List A) → pick f (map call xs) ≡ []
    unfolding pick
    pick_none h [] = refl
    pick_none h (a ∷ xs) = ap₂ (λ x y. x ++ y) (h a) (pick_none h xs)

    -- Calls of another kind come before others.
    pub pick_skip :
        ((a : A) → f (call a) ≡ [])
        → (xs : List A) (ys : List MainCall) → pick f (map call xs ++ ys) ≡ pick f ys
    pick_skip h xs ys = pick-append (map call xs) ys ∙ ap (λ x. x ++ pick f ys) (pick_none h xs)

  -- Calls of this kind.
  pub pick_each :
      (call : B → MainCall)
      → ((b : B) → f (call b) ≡ b ∷ [])
      → (bs : List B) → pick f (map call bs) ≡ bs
  unfolding pick
  pick_each call h [] = refl
  pick_each call h (b ∷ bs) = ap₂ (λ x y. x ++ y) (h b) (pick_each call h bs)

-- The calls that the MQTT client makes.
abbrev pub as_client : MainCall → List MqttCall
as_client (mqtt c) = c ∷ []
as_client _ = []

abbrev pub as_feed : MainCall → List Feed
as_feed (feed f) = f ∷ []
as_feed _ = []

abbrev pub as_published : MainCall → List Published
as_published (mqtt_publish p) = p ∷ []
as_published _ = []

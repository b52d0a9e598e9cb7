-- ===== src/Commons/Network/Told.antt =====
-- The handler of the network's events.
use hispec_tib.Prelude.{
  ◌≡◌, refl, sym, ◌∙◌, Bool, true, false, List, [], ◌∷◌, ◌++◌, append_assoc, append-nil,
  if◌then◌else◌,
}
use hispec_tib.Commons.Network.{
  Network, NetEvent, l4_connected, l4_disconnected, other, net_l4_evt_handler, coo_network_is_ready,
}

-- The events one after the other.
handle_events : List NetEvent → Network → Network
handle_events [] n = n
handle_events (e ∷ es) n = handle_events es (net_l4_evt_handler n e)

-- The changes that events report.
changes : List NetEvent → List Bool
changes [] = []
changes (l4_connected ∷ es) = true ∷ changes es
changes (l4_disconnected ∷ es) = false ∷ changes es
changes (other ∷ es) = changes es

-- The last of them, or what was before.
abbrev last_change : Bool → List Bool → Bool
last_change b [] = b
last_change b (c ∷ cs) = last_change c cs

record IsTold (es : List NetEvent) (n n' : Network) : Type 0 where
  ready : coo_network_is_ready n' ≡ last_change n.network_online (changes es)
  told : n'.told ≡ n.told ++ (if n.user_event_cb then changes es else [])
  same_callback : n'.user_event_cb ≡ n.user_event_cb

told_one :
    (b : Bool) (old : List Bool) (c : Bool) (cs : List Bool)
    → (if b then old ++ (c ∷ []) else old) ++ (if b then cs else [])
      ≡ old ++ (if b then c ∷ cs else [])
told_one true old c cs = append_assoc old (c ∷ []) cs
told_one false old c cs = refl

told_none : (b : Bool) (old : List Bool) → old ≡ old ++ (if b then [] else [])
told_none true old = sym (append-nil old)
told_none false old = sym (append-nil old)

-- After any sequence of events the network counts as ready if the last change was to be connected, or if
-- there was none and it was ready before; and the callback, if one is set, was told of each change in
-- order.
handle_events-IsTold : (es : List NetEvent) (n : Network) → IsTold es n (handle_events es n)
unfolding handle_events changes coo_network_is_ready net_l4_evt_handler
handle_events-IsTold [] n = record {
  ready = refl;
  told = told_none n.user_event_cb n.told;
  same_callback = refl;
}
handle_events-IsTold (l4_connected ∷ es) n =
    let r = handle_events-IsTold es (net_l4_evt_handler n l4_connected) in
    record {
      ready = r.ready;
      told = r.told ∙ told_one n.user_event_cb n.told true (changes es);
      same_callback = r.same_callback;
    }
handle_events-IsTold (l4_disconnected ∷ es) n =
    let r = handle_events-IsTold es (net_l4_evt_handler n l4_disconnected) in
    record {
      ready = r.ready;
      told = r.told ∙ told_one n.user_event_cb n.told false (changes es);
      same_callback = r.same_callback;
    }
handle_events-IsTold (other ∷ es) n =
    let r = handle_events-IsTold es n in
    record { ready = r.ready; told = r.told; same_callback = r.same_callback }

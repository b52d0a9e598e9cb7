-- ===== src/Mems.antt =====
-- app/src/mems_switching.h and mems_switching.c: optical switches, and routes over them.
-- `mems_switch *` is an index into the array `mems_switches`, so the router and the array share the
-- switches as they do in the program.
pub mod Lookup
pub mod Switching
pub mod Update
pub mod Routes
pub mod Check
pub mod Keep
pub mod Active
use hispec_tib.Prelude.{
  ℕ, zero, suc, ◌+◌, ℤ, pos, negsuc, Bool, true, false, ◌&&◌, ◌||◌, List, [], ◌∷◌, ◌++◌, Option,
  none, some, ltb, leb, ◌==◌, if◌then◌else◌, length, get_elem?, set, take, is_zero,
}
use hispec_tib.CString.{CString, strncmp_eq}
use hispec_tib.Board.{Call, History, pin_configure, pin_set, sleep}

abbrev pub mems_switch_name_len : ℕ
mems_switch_name_len = 24

abbrev mems_switch_pulse_delay_ms : ℕ
mems_switch_pulse_delay_ms = 2

abbrev mems_router_max_switches : ℕ
mems_router_max_switches = 8

abbrev pub mems_router_max_routes : ℕ
mems_router_max_routes = 18

abbrev pub mems_router_max_route_path : ℕ
mems_router_max_route_path = 5

pub record Switch : Type 0 where
  pub gpio_dev : ℕ
  pub pin_a : ℕ
  pub pin_b : ℕ
  pub state : ℕ
  pub name : CString

pub record RouteStep : Type 0 where
  pub switch_name : CString
  pub state : ℕ

pub record RouteKey : Type 0 where
  pub input_name : CString
  pub output_name : CString

-- `num_steps` is the length of `steps`.
pub record Route : Type 0 where
  pub key : RouteKey
  pub steps : List RouteStep

-- `num_switches` and `num_routes` are the lengths of the lists.
pub record Router : Type 0 where
  pub switches : List ℕ
  pub routes : List Route

unfoldable pub mems_switch_init : ℕ → ℕ → ℕ → CString → History → Switch × History
mems_switch_init dev a b name h = (
  record { gpio_dev = dev; pin_a = a; pin_b = b; state = b'U'; name = take 23 name },
  pin_configure dev b ∷ pin_configure dev a ∷ h,
)

-- low → high → low, with a delay after each
unfoldable pub pulse : ℕ → ℕ → History → History
pulse dev pin h =
    sleep mems_switch_pulse_delay_ms
    ∷ pin_set dev pin 0
    ∷ sleep mems_switch_pulse_delay_ms
    ∷ pin_set dev pin 1
    ∷ sleep mems_switch_pulse_delay_ms
    ∷ pin_set dev pin 0
    ∷ h

-- The pin that a state is set by.
unfoldable pub control_pin : Switch → ℕ → Option ℕ
control_pin sw state =
    if state == b'A' then some sw.pin_a else if state == b'B' then some sw.pin_b else none

unfoldable pub mems_switch_set_state : Switch → ℕ → History → ℤ × Switch × History
unfolding control_pin pulse
mems_switch_set_state sw state h = elim (control_pin sw state) [
  | none ↦ (negsuc 0, sw, h)
  | some pin ↦ (pos 0, record sw { state = state }, pulse sw.gpio_dev pin h)
]

-- The state goes out also where the result says that it is unknown.
unfoldable pub mems_switch_get_state : Switch → ℤ × ℕ
mems_switch_get_state sw =
    (if sw.state == b'A' || sw.state == b'B' then pos 0 else negsuc 0, sw.state)

unfoldable pub mems_router_init : List ℕ → ℕ → Router
mems_router_init switches num_switches = record {
  switches =
      take
        (if ltb mems_router_max_switches num_switches
          then mems_router_max_switches
          else num_switches)
        switches;
  routes = [];
}

-- The loop of `mems_router_find_switch` over the router's pointers.
unfoldable pub find_in : List ℕ → List Switch → CString → Option ℕ
find_in [] store name = none
find_in (p ∷ ps) store name =
    let rest = find_in ps store name in
    elim (get_elem? store p) [
      | none ↦ rest
      | some sw ↦ if strncmp_eq mems_switch_name_len sw.name name then some p else rest
    ]

unfoldable pub mems_router_find_switch : Router → List Switch → CString → Option ℕ
unfolding find_in
mems_router_find_switch router store name = find_in router.switches store name

-- A null pointer is `none`. The steps copied are the first `num_steps` of the array.
unfoldable pub mems_router_define_route :
    Router → Option CString → Option CString → Option (List RouteStep) → ℕ → ℤ × Router
mems_router_define_route router input output steps num_steps =
    if leb mems_router_max_routes (length router.routes) then (negsuc 0, router) else elim input [
      | none ↦ (negsuc 1, router)
      | some i ↦ elim output [
        | none ↦ (negsuc 1, router)
        | some o ↦ elim steps [
          | none ↦ (negsuc 1, router)
          | some path ↦
              if num_steps == 0 || ltb mems_router_max_route_path num_steps
              then (negsuc 1, router)
              else (
                pos 0,
                record router {
                  routes =
                      router.routes
                      ++ (record {
                        key = record { input_name = i; output_name = o };
                        steps = take num_steps path;
                      }
                          ∷ []);
                },
              )
        ]
      ]
    ]

-- Whether a route goes from the input to the output.
unfoldable pub key_matches : CString → CString → RouteKey → Bool
key_matches input output k =
    strncmp_eq mems_switch_name_len k.input_name input
    && strncmp_eq mems_switch_name_len k.output_name output

unfoldable pub find_route : List Route → CString → CString → Option Route
unfolding key_matches
find_route [] input output = none
find_route (r ∷ rs) input output =
    if key_matches input output r.key then some r else find_route rs input output

unfoldable pub mems_router_get_route : Router → CString → CString → Option Route
unfolding find_route
mems_router_get_route router input output = find_route router.routes input output

-- Whether the switch that a step names stands as the step wants it.
unfoldable pub step_matches : Router → List Switch → RouteStep → Bool
step_matches router store step = elim (mems_router_find_switch router store step.switch_name) [
  | none ↦ false
  | some p ↦ elim (get_elem? store p) [ none ↦ false | some sw ↦ sw.state == step.state ]
]

-- The inner loop of `mems_router_active_routes`.
unfoldable pub steps_match : Router → List Switch → List RouteStep → Bool
unfolding step_matches
steps_match router store [] = true
steps_match router store (s ∷ ss) =
    if step_matches router store s then steps_match router store ss else false

-- The outer loop, with room for `room` more keys.
unfoldable pub active_from : Router → List Switch → List Route → ℕ → List RouteKey
unfolding steps_match
active_from router store [] room = []
active_from router store (r ∷ rs) zero = []
active_from router store (r ∷ rs) (suc room) =
    let with_key = r.key ∷ active_from router store rs room in
    let without = active_from router store rs (suc room) in
    if steps_match router store r.steps then with_key else without

unfoldable pub mems_router_active_routes : Router → List Switch → ℕ → List RouteKey
unfolding active_from
mems_router_active_routes router store max_keys = active_from router store router.routes max_keys

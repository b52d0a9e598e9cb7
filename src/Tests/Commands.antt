-- ===== src/Tests/Commands.antt =====
-- Commands on the board that is set up.
use hispec_tib.Prelude.{◌≡◌, refl, ◌↔◌, inl, inr, [], ◌∷◌, arith, map}
use hispec_tib.CString.{text, tolower, strncmp_eq, split_at, before}
use hispec_tib.Mems.{
  Route, mems_router_get_route, find_route, key_matches, mems_router_define_route, mems_router_init,
}
use hispec_tib.Mems.Routes.{route_of}
use hispec_tib.Devices.{setup_mems_switches_and_routes}
use hispec_tib.Devices.Setup.{IsValid}
use hispec_tib.Command.{dispatch_command}
use hispec_tib.Command.Types.{Command, get, set, resp_error}
use hispec_tib.Command.Keys.{parse_key_pair, pair, get_laser_channel}
use hispec_tib.Command.Keys.Parse.{Splits, parse_key_pair_iff}
use hispec_tib.Command.Keys.Laser.{HasChannel, get_laser_channel_iff}
use hispec_tib.Command.Mems.{memsroute_set}
use hispec_tib.Command.Mems.Replies.{Routed, memsroute_set-Routed}
use hispec_tib.Command.Reach.{IsQuiet, dispatch-Refused, dispatch-IsQuiet}
use hispec_tib.Command.Inert.{IsInert, dispatch-IsInert}
use hispec_tib.Command.Valid.{dispatch-IsValid}
use hispec_tib.Command.Sendable.{IsSendable, dispatch-IsSendable}
use hispec_tib.Tests.{env, board, board-IsValid, json-RejectsEmpty, command}
use hispec_tib.Main.{boot_devices}
use hispec_tib.Devices.{setup_attenuators}

-- A request for the route from yj_cal to yj_fei.
abbrev move : Command
move = command set (text "memsroute") 1 (1 ∷ [])

abbrev look : Command
look = command get (text "memsroute") 0 []

abbrev empty_move : Command
empty_move = command set (text "memsroute") 0 []

abbrev whole_laser : Command
whole_laser = command get (text "laser") 0 []

abbrev to_fei : Route
to_fei =
    route_of (text "yj_cal") (text "yj_fei")
      (record { switch_name = text "yj_cal_laser"; state = b'A' }
        ∷ record { switch_name = text "yj_ao_fei"; state = b'B' }
        ∷ [])
      2

memsroute_set-Routed_example : Routed move to_fei board (memsroute_set env move board)
unfolding boot_devices setup_attenuators setup_mems_switches_and_routes mems_router_define_route
    mems_router_init mems_router_get_route find_route key_matches strncmp_eq
memsroute_set-Routed_example = memsroute_set-Routed env move board to_fei board-IsValid refl refl

dispatch-IsValid_example : IsValid (dispatch_command env move board).1
dispatch-IsValid_example = dispatch-IsValid env move board board-IsValid

dispatch-IsSendable_example : IsSendable look (dispatch_command env look board).0
dispatch-IsSendable_example = dispatch-IsSendable env look board

dispatch-IsInert_example : IsInert empty_move board (dispatch_command env empty_move board)
dispatch-IsInert_example = dispatch-IsInert env empty_move board json-RejectsEmpty refl

dispatch-IsQuiet_example : IsQuiet board (dispatch_command env move board).1
dispatch-IsQuiet_example = dispatch-IsQuiet env move board

dispatch-Refused_example :
    ((dispatch_command env whole_laser board).1 ≡ board)
    × ((dispatch_command env whole_laser board).0.msg_type ≡ resp_error)
dispatch-Refused_example = dispatch-Refused env whole_laser board (inr (inl refl))

parse_runs : parse_key_pair (text "laser/1028y/current") 15 15 ≡ pair (text "laser") (text "1028y")
unfolding parse_key_pair split_at before
parse_runs = refl

parse_key_pair_iff_example :
    (parse_key_pair (text "laser/1028y/current") 15 15 ≡ pair (text "laser") (text "1028y"))
    ↔ Splits (text "laser/1028y/current") 15 15 (text "laser") (text "1028y")
parse_key_pair_iff_example =
    parse_key_pair_iff (text "laser/1028y/current") 15 15 (text "laser") (text "1028y")

get_laser_channel_iff_example :
    (get_laser_channel (text "1510H") ≡ 4) ↔ HasChannel (map tolower (text "1510H")) 4
get_laser_channel_iff_example = get_laser_channel_iff (text "1510H") 4 (omega arith)

-- ===== src/Tests/Texts.antt =====
-- The texts that the firmware sends, on the board of the tests.
use hispec_tib.Prelude.{refl, [], arith, All}
use hispec_tib.CString.{text, decimal}
use hispec_tib.MsgQueue.{list_queue}
use hispec_tib.Attenuator.{DacChannelCfg, attenuator_init, attenuator_get}
use hispec_tib.Devices.{zeroed, route_table, setup_attenuators, setup_mems_switches_and_routes}
use hispec_tib.Mems.{mems_router_define_route, mems_router_init}
use hispec_tib.Main.{boot_devices}
use hispec_tib.Grammar.{plus, whole}
use hispec_tib.Grammar.Numbers.{decimal-IsNatural}
use hispec_tib.Command.{dispatch_table, handler_for}
use hispec_tib.Command.Types.{Command, OutMsg, get}
use hispec_tib.Command.Attens.{atten_setting_get}
use hispec_tib.Command.Texts.{SaysJson}
use hispec_tib.Command.Texts.Readings.{IsShort, IsPrintable}
use hispec_tib.Command.Texts.Handlers.{handlers-SaysJson}
use hispec_tib.Main.System.Spoken.{IsSpoken, routes-IsNamed, Reach-IsSpoken}
use hispec_tib.Tests.{env, board, board-IsValid, command}
use hispec_tib.Tests.Threads.{start, fetched, served_request}

-- A request for the voltage of an attenuator.
abbrev request : Command
request = command get (text "atten/1430yj/coeff") 0 []

zero-IsShort : IsShort (decimal 0)
unfolding decimal
zero-IsShort = (plus (whole (decimal-IsNatural 0)), omega arith)

-- An attenuator with 0 everywhere; `attenuator_get` gives 0 then.
zero-IsPrintable :
    (cfg : DacChannelCfg)
    → IsPrintable env (record {
      coeff_db_to_volt = record { c0 = 0; c1 = 0; c2 = 0 };
      coeff_volt_to_db = record { c0 = 0; c1 = 0; c2 = 0 };
      voltage = 0;
      cfg = cfg;
    })
unfolding attenuator_get
zero-IsPrintable cfg = record {
  db_to_volt0 = zero-IsShort;
  db_to_volt1 = zero-IsShort;
  db_to_volt2 = zero-IsShort;
  volt_to_db0 = zero-IsShort;
  volt_to_db1 = zero-IsShort;
  volt_to_db2 = zero-IsShort;
  volts = zero-IsShort;
  db = zero-IsShort;
}

board-IsPrintable : All (IsPrintable env) board.attenuators
unfolding boot_devices setup_attenuators zeroed setup_mems_switches_and_routes attenuator_init
board-IsPrintable = (
  zero-IsPrintable _,
  (
    zero-IsPrintable _,
    (zero-IsPrintable _, (zero-IsPrintable _, (zero-IsPrintable _, (zero-IsPrintable _, tt)))),
  ),
)

handlers-SaysJson_example : SaysJson (atten_setting_get env request board).0
unfolding boot_devices route_table setup_attenuators setup_mems_switches_and_routes
    mems_router_define_route mems_router_init dispatch_table handler_for
handlers-SaysJson_example =
    handlers-SaysJson env request board board-IsValid routes-IsNamed 4 _ get (atten_setting_get env)
      board-IsPrintable refl refl

start-IsSpoken :
    IsSpoken env (list_queue Command 2) (list_queue OutMsg 8) (list_queue OutMsg 4) start
start-IsSpoken = record { queued = tt; holding = tt; samples = tt; published = tt }

Reach-IsSpoken_example :
    IsSpoken env (list_queue Command 2) (list_queue OutMsg 8) (list_queue OutMsg 4) fetched
Reach-IsSpoken_example =
    Reach-IsSpoken env (list_queue Command 2) (list_queue OutMsg 8) (list_queue OutMsg 4) 0 start
      fetched refl start-IsSpoken served_request

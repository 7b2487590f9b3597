-- ===== src/SerialPort.antt =====
-- `SerialPort` (a17/utils/serial_port.h and serial_port.cpp), the `CharacterDevice` over a port of boost.
-- Whether the port opens is an argument; what the port is asked to do is a list of actions, and so are
-- the calls of the handlers. `none` is the null `port_`.
pub mod Failure
mod Tests
use general_tools.Common.{
  ℕ, Bool, true, false, Option, none, some, List, [], ◌∷◌, ◌++◌, if◌then◌else◌,
}
use general_tools.BufferPool.{BufferPool}
use general_tools.CharacterDevice
use general_tools.CharacterDevice.{CharacterDevice, Action, sends, receives, fails, receives_again}

pub data PortAction : Type 0 where
  sets_baud_rate : ℕ → PortAction
  reads_some : PortAction
  writes_some : List ℕ → PortAction
  calls_receive_handler : ℕ → List ℕ → PortAction
  calls_error_handler : ℕ → ℕ → PortAction
  uses_null_port : PortAction

-- The port is open or not.
pub record SerialPort : Type 0 where
  pub device : CharacterDevice
  pub port : Option Bool

-- `asyncReceive`.
unfoldable pub async_receive : Option Bool → PortAction
async_receive none = uses_null_port
async_receive (some opened) = reads_some

-- `asyncSend`.
unfoldable pub async_send : Option Bool → List ℕ → PortAction
async_send none bytes = uses_null_port
async_send (some opened) bytes = writes_some bytes

-- The calls of the device's virtual functions and handlers.
unfoldable pub perform : Option Bool → List Action → List PortAction
unfolding async_receive async_send
perform port [] = []
perform port (sends bytes ∷ rest) = async_send port bytes ∷ perform port rest
perform port (receives handler bytes ∷ rest) =
    calls_receive_handler handler bytes ∷ perform port rest
perform port (fails handler error ∷ rest) = calls_error_handler handler error ∷ perform port rest
perform port (receives_again ∷ rest) = async_receive port ∷ perform port rest

-- The constructor; `opens` is whether the port of boost can be constructed.
unfoldable pub init : Bool → ℕ → BufferPool → Option ℕ → Option ℕ → SerialPort × List PortAction
unfolding CharacterDevice.init async_receive
init opens bitrate pool receive_handler error_handler =
    let device = CharacterDevice.init pool receive_handler error_handler in
    if opens
    then (
      record { device = device; port = some true },
      sets_baud_rate bitrate ∷ async_receive (some true) ∷ [],
    )
    else (record { device = device; port = none }, [])

unfoldable pub is_open : SerialPort → Bool
is_open s = elim s.port [ none ↦ false | some opened ↦ opened ]

-- The inherited `send(buffer, bytes)`.
unfoldable pub send : SerialPort → (ℕ → ℕ) → List ℕ → SerialPort × List PortAction
unfolding CharacterDevice.send perform
send s os bytes =
    let (device, actions) = CharacterDevice.send s.device os bytes in
    (record s { device = device }, perform s.port actions)

-- The port has sent bytes.
unfoldable pub on_send : SerialPort → ℕ → ℕ → SerialPort × List PortAction
unfolding CharacterDevice.on_send perform
on_send s error n =
    let (device, actions) = CharacterDevice.on_send s.device error n in
    (record s { device = device }, perform s.port actions)

-- The port has received bytes.
unfoldable pub on_receive : SerialPort → ℕ → List ℕ → List PortAction
unfolding CharacterDevice.on_receive perform
on_receive s error bytes = perform s.port (CharacterDevice.on_receive s.device error bytes)

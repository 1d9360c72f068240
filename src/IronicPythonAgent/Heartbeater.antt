-- ===== src/IronicPythonAgent/Heartbeater.antt =====
-- agent.py: `IronicPythonAgentHeartbeater`. A delay is counted in units of ten microseconds, in which
-- all that a heartbeater reaches are whole; Python's floats round them.
pub mod Beats
use Prim.Native.Nat.{◌/◌}
use test_frerfhrebfd.Common.{
  ℕ, ◌*◌, String, Bool, true, false, List, [], ◌∷◌, leb, str_eq, if◌then◌else◌,
}
use test_frerfhrebfd.Exec.{Result, ok, err, Exec, pure, modify, try_except, ◌>>=◌, ◌>>◌}
use test_frerfhrebfd.IronicPythonAgent.{Python, python2, python3}

abbrev pub initial_delay : ℕ
initial_delay = 100000

abbrev pub max_delay : ℕ
max_delay = 30000000

-- `self.error_delay`, and what lies outside
pub record Heart (W : Type 0) : Type 0 where
  pub error_delay : ℕ
  pub world : W

-- `min(self.error_delay * self.backoff_factor, self.max_delay)`
abbrev pub backed_off : ℕ → ℕ
backed_off delay =
    let longer = delay * 27 / 10 in if leb longer max_delay then longer else max_delay

-- Python's texts and bytes. In Python 2 the bytes are texts; in Python 3 they are two types.
pub data PyString : Type 0 where
  text bytes : String → PyString

-- `os.read(self.reader, 1)`, for the byte that was written
abbrev pub os_read : Python → String → PyString
os_read python2 byte = text byte
os_read python3 byte = bytes byte

-- `==`: values of the two types are never equal
abbrev pub py_equal : PyString → PyString → Bool
py_equal (text a) (text b) = str_eq a b
py_equal (bytes a) (bytes b) = str_eq a b
py_equal (text a) (bytes b) = false
py_equal (bytes a) (text b) = false

-- `os.read(self.reader, 1) == 'a'`
unfoldable pub is_stop : Python → String → Bool
is_stop python byte = py_equal (os_read python byte) (text "a")

-- What `poll` comes to: nothing until the time is up, or a byte.
pub data Wake : Type 0 where
  timed_out : Wake
  written : String → Wake

abbrev pub stops : Python → Wake → Bool
stops python timed_out = false
stops python (written byte) = is_stop python byte

-- The loop has ended, or it polls.
pub data Beating : Type 0 where
  stopped polling : Beating

module _ {W : Type 0} where
  abbrev pub outside : Exec W (Unit {0}) → Exec (Heart W) (Unit {0})
  outside m s = let (r, w) = m s.world in (r, record s { world = w })

  abbrev pub reset_delay : Heart W → Heart W
  reset_delay s = record s { error_delay = initial_delay }

  abbrev pub back_off : Heart W → Heart W
  back_off s = record s { error_delay = backed_off s.error_delay }

  -- `do_heartbeat`: every exception is caught, and both handlers do the same. The argument is the
  -- call of the API with the node's UUID and the advertised address.
  unfoldable pub do_heartbeat : Exec W (Unit {0}) → Exec (Heart W) (Unit {0})
  unfolding try_except ◌>>=◌
  do_heartbeat send = try_except (do outside send; modify reset_delay) (λ e. modify back_off)

  unfoldable pub beat_round : Exec W (Unit {0}) → Exec (Heart W) Beating → Exec (Heart W) Beating
  unfolding do_heartbeat ◌>>=◌
  beat_round send rest = do do_heartbeat send; rest

  -- `while True`, on what `poll` comes to each time
  unfoldable pub beat_on : Python → Exec W (Unit {0}) → List Wake → Exec (Heart W) Beating
  unfolding beat_round
  beat_on python send [] = pure polling
  beat_on python send (wake ∷ wakes) =
      let rest = beat_on python send wakes in
      if stops python wake then pure stopped else beat_round send rest

  -- `IronicPythonAgentHeartbeater.run`
  unfoldable pub run_heartbeater :
      Python → Exec W (Unit {0}) → Exec W (Unit {0}) → List Wake → Exec (Heart W) Beating
  unfolding beat_on ◌>>=◌
  run_heartbeater python set_advertise_addr send wakes = do
    outside set_advertise_addr
    beat_on python send wakes

-- ===== src/Tests/World.antt =====
-- What the runs of the whole motor path take from outside: motors, a coding of control messages, and a
-- property that the motors of the arm have.
use ckriopassthru.Base.{
  ℕ, zero, suc, ◌<◌, ◌≤◌, ◌≡◌, refl, sym, ap, ◌∙◌, false, none, some, List, [], ◌∷◌, arith, Option,
  ◌==◌, if◌then◌else◌,
}
use ckriopassthru.Talon.{Talon, MotorType, talon_fx, talon_srx, other_type}
use ckriopassthru.Phoenix.{success, rio_canivore}
use ckriopassthru.MotorConfig.{u16}
use ckriopassthru.Network.{Bytes}
use ckriopassthru.Motor.Values.{MotorControl}
use ckriopassthru.Failover.Messages.{Serializer}
use ckriopassthru.Failover.Shape.{Are-Every, wired, Drives, Holds}
use ckriopassthru.System.{Outside}
use ckriopassthru.System.Safety.{IsRespected, ReadsBack}
use ckriopassthru.Tests.Numbers.{Sign, minus, nought, plus, signs}
use ckriopassthru.Tests.Failing.{generated, kinematics}
use ckriopassthru.MotorSettings.Task.{MotorConfiguration}
use ckriopassthru.Tests.Settings.{hundredths, configuration, kp_differs}

-- A motor is the output that it was told last; the id of an output other than 0 is 9.
abbrev pub tell : Talon
tell = record {
  double = record {
    Value = Sign;
    zero_value = nought;
    is_inf = λ v. false;
    is_nan = λ v. false;
    to_id = λ v. elim v [ nought ↦ 0 | _ ↦ 9 ];
  };
  Motor = Sign;
  ControlMode = ℕ;
  new_talon_fx = λ id name. nought;
  new_talon_srx = λ id. nought;
  set_with_feedforward = λ mode v ff d. v;
  set = λ mode v d. v;
  follow = λ master d. master;
  get_control_mode = λ d. 0;
  percent_output = 0;
  to_control_mode = λ n. n;
  follower_number = 5;
  is_follower = λ mode. mode == 5;
}

-- Five numbers to a message.
abbrev sign_number : Sign → ℕ
sign_number nought = 0
sign_number plus = 1
sign_number minus = 2

abbrev number_sign : ℕ → Sign
number_sign zero = nought
number_sign (suc zero) = plus
number_sign _ = minus

abbrev type_number : MotorType → ℕ
type_number talon_fx = 0
type_number talon_srx = 1
type_number (other_type n) = suc (suc n)

abbrev number_type : ℕ → MotorType
number_type zero = talon_fx
number_type (suc zero) = talon_srx
number_type (suc (suc n)) = other_type n

abbrev pub encode : List (MotorControl Sign) → Bytes
encode [] = []
encode (m ∷ ms) =
    m.id
    ∷ m.control_mode
    ∷ sign_number m.output_value
    ∷ sign_number m.arbitrary_feedforward
    ∷ type_number m.controller_type
    ∷ encode ms

abbrev add_control :
    MotorControl Sign → Option (List (MotorControl Sign)) → Option (List (MotorControl Sign))
add_control m none = none
add_control m (some ms) = some (m ∷ ms)

abbrev pub decode : Bytes → Option (List (MotorControl Sign))
decode (a ∷ b ∷ c ∷ d ∷ e ∷ rest) =
    add_control
      (record {
        id = a;
        control_mode = b;
        output_value = number_sign c;
        arbitrary_feedforward = number_sign d;
        controller_type = number_type e;
      })
      (decode rest)
decode [] = some []
decode _ = none

sign-number : (v : Sign) → number_sign (sign_number v) ≡ v
sign-number nought = refl
sign-number plus = refl
sign-number minus = refl

type-number : (t : MotorType) → number_type (type_number t) ≡ t
type-number talon_fx = refl
type-number talon_srx = refl
type-number (other_type n) = refl

pub decode-encode : (ms : List (MotorControl Sign)) → decode (encode ms) ≡ some ms
decode-encode [] = refl
decode-encode (m ∷ ms) =
    rw
      (
        decode-encode ms,
        sign-number m.output_value,
        sign-number m.arbitrary_feedforward,
        type-number m.controller_type,
      )
      refl

abbrev written : Serializer Sign
written = record {
  motor_control_bytes = λ ms. some (encode ms);
  motor_configuration_bytes = λ ms. some (2 ∷ []);
  solenoid_control_bytes = λ ms. some (3 ∷ []);
  led_control_bytes = λ ms. some (4 ∷ []);
}

-- The bytes that configurations are written as are read as one configuration, and others as none.
abbrev read_configs : Bytes → Option (List (MotorConfiguration ℕ))
read_configs (b ∷ []) = if b == 2 then some (configuration ∷ []) else none
read_configs _ = none

abbrev pub world : Outside
world = record {
  talon = tell;
  arithmetic = signs;
  generated = generated;
  serializer = written;
  kinematics = kinematics;
  parse_controls = decode;
  scale = hundredths;
  call = λ c d. (d, success);
  general_error = success;
  default_msg = configuration;
  differences = kp_differs;
  parse_configs = read_configs;
  can_network = λ m. rio_canivore;
  eagain = 11;
}

pub reads_back : ReadsBack world
reads_back ms ms' buf e p =
    let q : encode ms ≡ buf = ground (arith, e) in
    let r : some ms ≡ some ms' = sym (decode-encode ms) ∙ (ap decode q ∙ p) in ground (arith, r)

-- The motors of the arm, whose ids are above 8, stand still; messages for them must say so.
abbrev pub Stands : ℕ → Sign → Type 0
Stands id d = 8 < id → d ≡ nought

abbrev pub SparesArm : MotorControl Sign → Type 0
SparesArm m = 8 < u16 m.id → (if m.control_mode == 5 then plus else nought) ≡ m.output_value

low : (k mode : ℕ) → k ≤ 8 → (m : MotorControl Sign) → Drives signs generated k mode m → SparesArm m
low k mode le m h high = ground (arith, h, high, le)

still : (k : ℕ) (m : MotorControl Sign) → Holds signs generated k 0 0 m → SparesArm m
still k m h high = ground (arith, h)

follows : (k n : ℕ) (m : MotorControl Sign) → Holds signs generated k 5 (suc n) m → SparesArm m
follows k n m h high = ground (arith, h)

pub respected : IsRespected world SparesArm Stands
respected = record {
  commanded = record {
    made_fx = λ id name high. refl;
    made_srx = λ id high. refl;
    driven = λ m d ok mode inf nan p high.
        let o : (if m.control_mode == 5 then plus else nought) ≡ m.output_value = ok high in
        let o' : nought ≡ m.output_value = rw mode at o in sym o';
    followed = λ m master d ok mode q p high.
        let o : (if m.control_mode == 5 then plus else nought) ≡ m.output_value = ok high in
        let o' : plus ≡ m.output_value = rw mode at o in
        let q' : Stands 9 master = rw (sym o') at q in q' (omega arith);
    stopped = λ id d p high. refl;
  };
  configured = λ id c d p. p;
  own = λ ms h.
      Are-Every SparesArm (wired signs generated) ms
        (
          low 1 2 (omega arith),
          (
            low 2 2 (omega arith),
            (
              low 3 2 (omega arith),
              (
                low 4 2 (omega arith),
                (
                  low 5 1 (omega arith),
                  (
                    low 6 1 (omega arith),
                    (
                      low 7 1 (omega arith),
                      (
                        low 8 1 (omega arith),
                        (
                          still 9,
                          (follows 10 8, (still 11, (follows 12 10, (still 13, (still 14, tt))))),
                        ),
                      ),
                    ),
                  ),
                ),
              ),
            ),
          ),
        )
        h;
}

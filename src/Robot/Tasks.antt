-- ===== src/Robot/Tasks.antt =====
-- src/main/cpp/Robot.cpp, `RobotInit`: the tasks that it registers, with the rates of
-- src/main/include/tasks/*.hpp, and the scheduler that it starts. The calls into the libraries and the
-- operating system are left out.
use ckriopassthru.Base.{ℕ, ◌≡◌, refl, List, [], ◌∷◌, map, arith}
use ckriopassthru.Mode.{disabled, ModeHelper, set_control_mode}
use ckriopassthru.Scheduler.{new_task, schedule_task}
use ckriopassthru.Scheduler.Thread.{TaskScheduler, new_task_scheduler, start, round, round_new}

pub data Job : Type 0 where
  receive_messages apply_imu_config apply_motor_values apply_motor_config : Job
  apply_solenoid_values send_robot_data send_imu_data send_motor_data : Job
  send_joystick_data apply_led_control process_heartbeat update_ds_connection_status : Job

-- `THREAD_RATE_MS` of each task.
unfoldable pub thread_rate_ms : Job → ℕ
thread_rate_ms receive_messages = 2
thread_rate_ms apply_imu_config = 100
thread_rate_ms apply_motor_values = 5
thread_rate_ms apply_motor_config = 100
thread_rate_ms apply_solenoid_values = 20
thread_rate_ms send_robot_data = 10
thread_rate_ms send_imu_data = 10
thread_rate_ms send_motor_data = 10
thread_rate_ms send_joystick_data = 20
thread_rate_ms apply_led_control = 100
thread_rate_ms process_heartbeat = 20
thread_rate_ms update_ds_connection_status = 1000

-- The jobs, in the order of registration.
abbrev pub jobs : List Job
jobs =
    receive_messages ∷ apply_imu_config ∷ apply_motor_values ∷ apply_motor_config
    ∷ apply_solenoid_values ∷ send_robot_data ∷ send_imu_data ∷ send_motor_data ∷ send_joystick_data
    ∷ apply_led_control ∷ process_heartbeat ∷ update_ds_connection_status ∷ []

unfoldable pub register : List Job → TaskScheduler → TaskScheduler
unfolding schedule_task new_task thread_rate_ms
register [] s = s
register (j ∷ js) s =
    register js (record s { task_list = schedule_task (new_task (thread_rate_ms j)) s.task_list })

unfoldable pub robot_init : ModeHelper × TaskScheduler → ModeHelper × TaskScheduler
unfolding register start
robot_init (h, s) = (set_control_mode disabled h, start (register jobs s))

-- The first round of the scheduler after RobotInit runs all twelve tasks, in the order of their
-- registration.
pub round-robot_init :
    (now : ℕ) (h : ModeHelper)
    → map (λ call. call.0) (round now [] (robot_init (h, new_task_scheduler)).1).0
      ≡ 0 ∷ 1 ∷ 2 ∷ 3 ∷ 4 ∷ 5 ∷ 6 ∷ 7 ∷ 8 ∷ 9 ∷ 10 ∷ 11 ∷ []
unfolding robot_init register start schedule_task new_task thread_rate_ms
round-robot_init now h =
    round_new now (robot_init (h, new_task_scheduler)).1 refl refl (ground arith)

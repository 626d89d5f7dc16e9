-- ===== src/Tests/Enums.antt =====
-- The enumerations of proto/nsb.proto as numbers, for a concrete codec.
use nsb_beta.Base.{ℕ, zero, suc, ◌≡◌, refl, ℤ, pos}
use nsb_beta.Wire.{Operation, Originator, OpCode, SystemMode, SimulatorMode}
use nsb_beta.Tests.Coder.{Coder, number, pair, via, signed}

abbrev of_operation : ℕ × ℕ → Operation
of_operation (zero, n) = Operation.ping
of_operation (suc zero, n) = Operation.init
of_operation (suc (suc zero), n) = Operation.send
of_operation (suc (suc (suc zero)), n) = Operation.fetch
of_operation (suc (suc (suc (suc zero))), n) = Operation.post
of_operation (suc (suc (suc (suc (suc zero)))), n) = Operation.receive
of_operation (suc (suc (suc (suc (suc (suc zero))))), n) = Operation.forward
of_operation (suc (suc (suc (suc (suc (suc (suc zero)))))), n) = Operation.exit
of_operation (tag, n) = Operation.other_operation n

abbrev to_operation : Operation → ℕ × ℕ
to_operation Operation.ping = (0, 0)
to_operation Operation.init = (1, 0)
to_operation Operation.send = (2, 0)
to_operation Operation.fetch = (3, 0)
to_operation Operation.post = (4, 0)
to_operation Operation.receive = (5, 0)
to_operation Operation.forward = (6, 0)
to_operation Operation.exit = (7, 0)
to_operation (Operation.other_operation n) = (8, n)

pub of_to_operation : (x : Operation) → of_operation (to_operation x) ≡ x
of_to_operation Operation.ping = refl
of_to_operation Operation.init = refl
of_to_operation Operation.send = refl
of_to_operation Operation.fetch = refl
of_to_operation Operation.post = refl
of_to_operation Operation.receive = refl
of_to_operation Operation.forward = refl
of_to_operation Operation.exit = refl
of_to_operation (Operation.other_operation n) = refl

abbrev pub operation_coder : Coder Operation
operation_coder = via of_operation to_operation of_to_operation (pair number number)

abbrev of_originator : ℕ × ℕ → Originator
of_originator (zero, n) = Originator.daemon
of_originator (suc zero, n) = Originator.app_client
of_originator (suc (suc zero), n) = Originator.sim_client
of_originator (tag, n) = Originator.other_originator n

abbrev to_originator : Originator → ℕ × ℕ
to_originator Originator.daemon = (0, 0)
to_originator Originator.app_client = (1, 0)
to_originator Originator.sim_client = (2, 0)
to_originator (Originator.other_originator n) = (3, n)

pub of_to_originator : (x : Originator) → of_originator (to_originator x) ≡ x
of_to_originator Originator.daemon = refl
of_to_originator Originator.app_client = refl
of_to_originator Originator.sim_client = refl
of_to_originator (Originator.other_originator n) = refl

abbrev pub originator_coder : Coder Originator
originator_coder = via of_originator to_originator of_to_originator (pair number number)

abbrev of_op_code : ℕ × ℕ → OpCode
of_op_code (zero, n) = OpCode.success
of_op_code (suc zero, n) = OpCode.failure
of_op_code (suc (suc zero), n) = OpCode.client_request
of_op_code (suc (suc (suc zero)), n) = OpCode.daemon_response
of_op_code (suc (suc (suc (suc zero))), n) = OpCode.implicit_target
of_op_code (suc (suc (suc (suc (suc zero)))), n) = OpCode.explicit_target
of_op_code (suc (suc (suc (suc (suc (suc zero))))), n) = OpCode.message
of_op_code (suc (suc (suc (suc (suc (suc (suc zero)))))), n) = OpCode.no_message
of_op_code (tag, n) = OpCode.other_code n

abbrev to_op_code : OpCode → ℕ × ℕ
to_op_code OpCode.success = (0, 0)
to_op_code OpCode.failure = (1, 0)
to_op_code OpCode.client_request = (2, 0)
to_op_code OpCode.daemon_response = (3, 0)
to_op_code OpCode.implicit_target = (4, 0)
to_op_code OpCode.explicit_target = (5, 0)
to_op_code OpCode.message = (6, 0)
to_op_code OpCode.no_message = (7, 0)
to_op_code (OpCode.other_code n) = (8, n)

pub of_to_op_code : (x : OpCode) → of_op_code (to_op_code x) ≡ x
of_to_op_code OpCode.success = refl
of_to_op_code OpCode.failure = refl
of_to_op_code OpCode.client_request = refl
of_to_op_code OpCode.daemon_response = refl
of_to_op_code OpCode.implicit_target = refl
of_to_op_code OpCode.explicit_target = refl
of_to_op_code OpCode.message = refl
of_to_op_code OpCode.no_message = refl
of_to_op_code (OpCode.other_code n) = refl

abbrev pub op_code_coder : Coder OpCode
op_code_coder = via of_op_code to_op_code of_to_op_code (pair number number)

abbrev of_system_mode : ℕ × ℤ → SystemMode
of_system_mode (zero, n) = SystemMode.pull
of_system_mode (suc zero, n) = SystemMode.push
of_system_mode (tag, n) = SystemMode.other_system_mode n

abbrev to_system_mode : SystemMode → ℕ × ℤ
to_system_mode SystemMode.pull = (0, pos 0)
to_system_mode SystemMode.push = (1, pos 0)
to_system_mode (SystemMode.other_system_mode n) = (2, n)

pub of_to_system_mode : (x : SystemMode) → of_system_mode (to_system_mode x) ≡ x
of_to_system_mode SystemMode.pull = refl
of_to_system_mode SystemMode.push = refl
of_to_system_mode (SystemMode.other_system_mode n) = refl

abbrev pub system_mode_coder : Coder SystemMode
system_mode_coder = via of_system_mode to_system_mode of_to_system_mode (pair number signed)

abbrev of_simulator_mode : ℕ × ℤ → SimulatorMode
of_simulator_mode (zero, n) = SimulatorMode.system_wide
of_simulator_mode (suc zero, n) = SimulatorMode.per_node
of_simulator_mode (tag, n) = SimulatorMode.other_simulator_mode n

abbrev to_simulator_mode : SimulatorMode → ℕ × ℤ
to_simulator_mode SimulatorMode.system_wide = (0, pos 0)
to_simulator_mode SimulatorMode.per_node = (1, pos 0)
to_simulator_mode (SimulatorMode.other_simulator_mode n) = (2, n)

pub of_to_simulator_mode : (x : SimulatorMode) → of_simulator_mode (to_simulator_mode x) ≡ x
of_to_simulator_mode SimulatorMode.system_wide = refl
of_to_simulator_mode SimulatorMode.per_node = refl
of_to_simulator_mode (SimulatorMode.other_simulator_mode n) = refl

abbrev pub simulator_mode_coder : Coder SimulatorMode
simulator_mode_coder =
    via of_simulator_mode to_simulator_mode of_to_simulator_mode (pair number signed)

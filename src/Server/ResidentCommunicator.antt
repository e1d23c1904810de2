-- ===== src/Server/ResidentCommunicator.antt =====
-- server/src/ResidentCommunicator.cc and ResidentProtocol.h: the packets between the server and a
-- resident yard, `ActionManager::sendParameters`, and how the yard (hatoholResidentYard.cc) reads
-- the parameters.
pub mod Parameters
use hatohol.Base.{
  ℕ, ◌+◌, ◌%◌, ◌^◌, Option, none, some, ltb, ◌==◌, if◌then◌else◌, length, take, Bytes,
}
use hatohol.Mlpl.SmartBuffer.Block.{read_at}
use hatohol.Mlpl.SmartBuffer.Operations.{
  SmartBuffer, Outcome, ok, fail, undefined, then_ok, init, reset_index, reset_index_deep,
  inc_index, add, add16, add32, add64, get_value, get_value_and_inc_index, ensure_remaining_size,
}
use hatohol.Mlpl.SmartBuffer.Strings.{insert_string}

infixl 5 ◌>>=◌
abbrev ◌>>=◌ {ℓ κ} : {A : Type ℓ} {B : Type κ} → Outcome A → (A → Outcome B) → Outcome B
m >>= f = then_ok m f

abbrev pub proto_header_pkt_size_len : ℕ
proto_header_pkt_size_len = 4

abbrev pub proto_header_len : ℕ
proto_header_len = proto_header_pkt_size_len + 2

abbrev pub pkt_type_module_loaded : ℕ
pkt_type_module_loaded = 1

abbrev pub pkt_type_parameters : ℕ
pkt_type_parameters = 2

abbrev pub pkt_type_notify_event : ℕ
pkt_type_notify_event = 3

abbrev pub pkt_type_notify_event_ack : ℕ
pkt_type_notify_event_ack = 4

abbrev pub session_id_len : ℕ
session_id_len = 36

abbrev pub event_body_base_len : ℕ
event_body_base_len = 4 + 4 + 8 + 8 + 4 + 8 + 2 + 8 + 2 + 2 + session_id_len

-- What a packet takes from an EventInfo.
pub record EventInfo : Type 0 where
  pub server_id : ℕ
  pub host_id_in_server : Bytes
  pub tv_sec : ℕ
  pub tv_nsec : ℕ
  pub id : Bytes
  pub type_code : ℕ
  pub trigger_id : Bytes
  pub status : ℕ
  pub severity : ℕ

-- `none` is the assertion on the size of the buffer.
unfoldable pub get_body_size : SmartBuffer → Option (Outcome (SmartBuffer × ℕ))
unfolding reset_index get_value
get_body_size b =
    if ltb b.size proto_header_len
    then none
    else some (let c = reset_index b in then_ok (get_value c 4 c.index) (λ v. ok (c, v)))

unfoldable pub get_packet_type : SmartBuffer → Option (Outcome (SmartBuffer × ℕ))
unfolding reset_index get_value inc_index
get_packet_type b =
    if ltb b.size proto_header_len
    then none
    else some (
        let c = inc_index (reset_index b) proto_header_pkt_size_len in
        then_ok (get_value c 2 c.index) (λ v. ok (c, v)))

-- `addModulePath` and `addModuleOption`.
unfoldable pub add_module_path : Bytes → SmartBuffer → Outcome SmartBuffer
unfolding add16 add
add_module_path module_path b = then_ok (add16 b (length module_path)) (λ c. add c module_path)

unfoldable pub add_module_option : Bytes → SmartBuffer → Outcome SmartBuffer
unfolding add16 add
add_module_option module_option b =
    then_ok (add16 b (length module_option)) (λ c. add c module_option)

module _ (realloc : Bytes → ℕ → Option Bytes) where
  -- `body_size` is a number of 32 bits.
  unfoldable pub set_header : ℕ → ℕ → SmartBuffer → Outcome SmartBuffer
  unfolding ensure_remaining_size reset_index_deep add32 add16
  set_header body_size type b =
      then_ok (ensure_remaining_size realloc b (proto_header_len + body_size))
        (λ c. then_ok (add32 (reset_index_deep c) body_size) (λ d. add16 d type))

  unfoldable pub set_module_loaded : ℕ → SmartBuffer → Outcome SmartBuffer
  unfolding set_header
  set_module_loaded code b = then_ok (set_header 4 pkt_type_module_loaded b) (λ c. add32 c code)

  unfoldable pub set_notify_event_ack : ℕ → SmartBuffer → Outcome SmartBuffer
  unfolding set_header
  set_notify_event_ack result_code b =
      then_ok (set_header 4 pkt_type_notify_event_ack b) (λ c. add32 c result_code)

  unfoldable pub set_notify_event_body : ℕ → EventInfo → Bytes → SmartBuffer → Outcome SmartBuffer
  unfolding set_header insert_string add32 add64 add16 add
  set_notify_event_body action_id event session_id b =
      let body_size =
        (event_body_base_len
          + length event.host_id_in_server
          + 1
          + length event.id
          + 1
          + length event.trigger_id
          + 1)
        % 2 ^ 32 in
      do
        b1 ← set_header body_size pkt_type_notify_event b
        b2 ← add32 b1 action_id
        b3 ← add32 b2 event.server_id
        (b4, host_end) ←
            insert_string b3 event.host_id_in_server (proto_header_len + event_body_base_len)
        b5 ← add64 b4 event.tv_sec
        b6 ← add32 b5 event.tv_nsec
        (b7, id_end) ← insert_string b6 event.id host_end
        b8 ← add16 b7 event.type_code
        (b9, trigger_end) ← insert_string b8 event.trigger_id id_end
        b10 ← add16 b9 event.status
        b11 ← add16 b10 event.severity
        add b11 (take session_id_len session_id)

  -- `ActionManager::sendParameters`, from a new communicator.
  unfoldable pub send_parameters : Bytes → Bytes → Outcome SmartBuffer
  unfolding set_header add_module_path add_module_option init
  send_parameters module_path module_option =
      let body_len = 2 + length module_path + 2 + length module_option in
      then_ok (set_header (body_len % 2 ^ 32) pkt_type_parameters init)
        (λ b. then_ok (add_module_path module_path b) (λ c. add_module_option module_option c))

-- `string s(sbuf.getPointer<char>(), n)` and `incIndex(n)`.
unfoldable pub take_text : ℕ → SmartBuffer → Outcome (SmartBuffer × Bytes)
unfolding read_at inc_index
take_text n b = elim (read_at b.buf b.index n) [
  | none ↦ fail undefined
  | some s ↦ ok (inc_index b n, s)
]

-- `getParametersCb`: the length of the body, if the packet has parameters.
unfoldable pub get_parameters : SmartBuffer → Outcome (Option ℕ)
unfolding get_value_and_inc_index
get_parameters b = then_ok (get_value_and_inc_index b 4) (λ (c, body_len).
    then_ok (get_value_and_inc_index c 2)
      (λ (d, pkt_type). ok (if pkt_type == pkt_type_parameters then some body_len else none)))

-- `getParametersBodyCb`: the path and the option of the module.
unfoldable pub get_parameters_body : SmartBuffer → Outcome (Bytes × Bytes)
unfolding get_value_and_inc_index take_text
get_parameters_body b = then_ok (get_value_and_inc_index b 2) (λ (c, path_len).
    then_ok (take_text path_len c) (λ (d, module_path).
      then_ok (get_value_and_inc_index d 2) (λ (e, option_len).
        then_ok (take_text option_len e) (λ (f, module_option). ok (module_path, module_option)))))

-- ===== src/SockObj.antt =====
-- src/sock_fn/sock_obj.c: a socket that is connected again when a send finds it broken.
-- What the operating system answers to each `send` and to each new connection is the list `events`;
-- `wire` is what it has taken, on one connection after the other. With no event left it takes all
-- that it is given.
pub mod Send
pub mod Live
mod Tests
use xmltp.Prelude.{
  ℕ, zero, suc, ◌+◌, Bool, true, false, not, ◌&&◌, ◌||◌, Option, none, some, List, [], ◌∷◌, ◌++◌, ℤ,
  pos, neg, is_neg, ltb, leb, ◌==◌, if◌then◌else◌, length, take, drop,
}
use xmltp.Bytes.{Bytes}

-- SOCK_OBJ, without the address and the settings of the connection, and without `last_error_code`,
-- which the round that sets it reads, and then only the diagnostics.
pub record SockObj : Type 0 where
  pub signature : ℕ
  pub fd : ℤ
  pub connect_max_retry : ℕ

-- A call of `send`: the bytes before the last one that it takes, or the `errno` of its failure,
-- with the descriptor that `sf_connect_ext` then opens, if it is called and succeeds.
pub data SendEvent : Type 0 where
  accepted : ℕ → SendEvent
  failed : ℕ → Option ℕ → SendEvent

pub record Link : Type 0 where
  pub obj : SockObj
  pub events : List SendEvent
  pub wire : Bytes

abbrev pub sock_obj_signature : ℕ
sock_obj_signature = 0x8fbf41ad

abbrev pub warning_reconnect_after_reset : ℤ
warning_reconnect_after_reset = pos 3

abbrev pub error_not_yet_connected : ℤ
error_not_yet_connected = neg 3

abbrev pub error_send_failed_after_retry : ℤ
error_send_failed_after_retry = neg 5

abbrev pub error_send_failed : ℤ
error_send_failed = neg 6

abbrev pub error_disconnect_by_peer : ℤ
error_disconnect_by_peer = neg 9

abbrev pub error_bad_signature : ℤ
error_bad_signature = neg 21

abbrev pub eintr : ℕ
eintr = 4

-- EPIPE or EINVAL, as Linux numbers them.
abbrev pub is_reset : ℕ → Bool
is_reset errno = errno == 32 || errno == 22

-- The end of the `for` loop of `sock_obj_send_ext` by its test.
abbrev pub no_retry_left : SockObj → ℕ → Bool
no_retry_left o retry_ctr = not (o.connect_max_retry == 0) && leb o.connect_max_retry retry_ctr

-- The code of a send that is complete.
abbrev pub sent_code : ℕ → ℤ
sent_code retry_ctr = if leb retry_ctr 1 then pos 0 else warning_reconnect_after_reset

-- The connection after `sf_connect_ext`, -1 where it failed.
abbrev pub reconnect : ℤ → Link → Link
reconnect fd l = record l { obj = record (l.obj) { fd = fd } }

-- The `for` loop of `sock_obj_send_ext`.
unfoldable pub send_loop : Bool → List SendEvent → ℕ → Bytes → Link → ℤ × Link
send_loop b_no_reconnect [] retry_ctr buffer l =
    if no_retry_left l.obj retry_ctr
    then (error_send_failed_after_retry, record l { events = [] })
    else (sent_code retry_ctr, record l { events = []; wire = l.wire ++ buffer })
send_loop b_no_reconnect (accepted k ∷ es) retry_ctr buffer l =
    elim (no_retry_left l.obj retry_ctr) [
      | true ↦ (error_send_failed_after_retry, record l { events = accepted k ∷ es })
      | false ↦ elim (ltb (suc k) (length buffer)) [
        | true ↦
            send_loop b_no_reconnect es (retry_ctr + 1) (drop (suc k) buffer)
              (record l { wire = l.wire ++ take (suc k) buffer })
        | false ↦ (sent_code retry_ctr, record l { events = es; wire = l.wire ++ buffer })
      ]
    ]
send_loop b_no_reconnect (failed errno opened ∷ es) retry_ctr buffer l =
    elim (no_retry_left l.obj retry_ctr) [
      | true ↦ (error_send_failed_after_retry, record l { events = failed errno opened ∷ es })
      | false ↦ elim (errno == eintr) [
        | true ↦ send_loop b_no_reconnect es (retry_ctr + 1) buffer l
        | false ↦ elim (is_reset errno) [
          | false ↦ (error_send_failed, record l { events = es })
          | true ↦ elim b_no_reconnect [
            | true ↦ (error_disconnect_by_peer, record l { events = es })
            | false ↦ elim opened [
              | none ↦ (error_send_failed_after_retry, record (reconnect (neg 1) l) { events = es })
              | some fd ↦ send_loop b_no_reconnect es (retry_ctr + 1) buffer (reconnect (pos fd) l)
            ]
          ]
        ]
      ]
    ]

-- `sock_obj_send_ext`
unfoldable pub send_ext : Bytes → Bool → Link → ℤ × Link
send_ext buffer b_no_reconnect l =
    if not (l.obj.signature == sock_obj_signature)
    then (error_bad_signature, l)
    else if length buffer == 0
    then (pos 0, l)
    else if is_neg l.obj.fd
    then (error_not_yet_connected, l)
    else send_loop b_no_reconnect l.events 0 buffer l

-- `sock_obj_send`
unfoldable pub send : Bytes → Link → ℤ × Link
send buffer l = send_ext buffer false l

-- `sock_obj_create_socket_object_from_fd`, where its memory is found.
abbrev pub create_from_fd : ℕ → ℤ → SockObj
create_from_fd connect_max_retry fd = record {
  signature = sock_obj_signature;
  fd = fd;
  connect_max_retry = connect_max_retry;
}

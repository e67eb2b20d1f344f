-- ===== src/SockObj/Tests.antt =====
-- Sends on concrete connections, and the theorems on them.
use xmltp.Prelude.{arith, false, inl, inr, is_neg, ◌≡◌, refl, none, some, [], ◌∷◌, ◌++◌, pos}
use xmltp.Bytes.{codes}
use xmltp.SockObj.{
  Link, accepted, failed, create_from_fd, send_loop, send_ext, send, eintr,
  warning_reconnect_after_reset,
}
use xmltp.SockObj.Live.{send-Completes}
use xmltp.SockObj.Send.{Sends, send-Sends, IsOpen, send_three_pieces}

abbrev reset_link : Link
reset_link = record {
  obj = create_from_fd 0 (pos 4);
  events = accepted 1 ∷ failed 32 (some 5) ∷ failed eintr none ∷ [];
  wire = codes "a";
}

-- Two bytes go out, then the connection is reset and made again, then a signal interrupts.
send_after_reset : send (codes "bcdef") reset_link ≡ (
  warning_reconnect_after_reset,
  record { obj = create_from_fd 0 (pos 5); events = []; wire = codes "abcdef" },
)
unfolding send send_ext send_loop
send_after_reset = refl

send-Sends_example : Sends reset_link (codes "bcdef") (send (codes "bcdef") reset_link)
send-Sends_example = send-Sends (codes "bcdef") reset_link

connected-IsOpen : IsOpen (create_from_fd 0 (pos 4))
connected-IsOpen = record { signed = refl; connected = refl; patient = refl }

send_three_pieces_example :
    send (codes "a" ++ (codes "b" ++ codes "c")) (record {
      obj = create_from_fd 0 (pos 4);
      events = accepted 0 ∷ accepted 0 ∷ accepted 0 ∷ [];
      wire = [];
    })
    ≡ (
      warning_reconnect_after_reset,
      record { obj = create_from_fd 0 (pos 4); events = []; wire = codes "abc" },
    )
send_three_pieces_example =
    send_three_pieces b'a' b'b' b'c' [] [] [] [] (create_from_fd 0 (pos 4)) [] connected-IsOpen

-- The connection breaks before a byte is taken; the new one gets the text in two pieces.
send-Completes_example :
    let r = send (codes "bcdef") (record {
      obj = create_from_fd 0 (pos 4);
      events =
          (failed eintr none ∷ failed 32 (some 5) ∷ [])
          ++ accepted 1 ∷ failed eintr none ∷ accepted 7 ∷ [];
      wire = codes "a";
    }) in
    (is_neg r.0 ≡ false)
    × (r.1.obj ≡ create_from_fd 0 (pos 5))
    × (r.1.wire ≡ codes "a" ++ codes "bcdef")
send-Completes_example =
    send-Completes (codes "bcdef") (failed eintr none ∷ failed 32 (some 5) ∷ [])
      (accepted 1 ∷ failed eintr none ∷ accepted 7 ∷ []) (create_from_fd 0 (pos 4)) (codes "a")
      connected-IsOpen (inl refl, (inr (refl, 5, refl), tt)) (tt, (refl, (tt, tt))) (omega arith)
      (omega arith)

-- ===== src/Examples/Session.antt =====
-- src/session/handshake.rs and src/session/banner.rs at concrete devices.
use rsadb.Base.{ℕ, ◌≡◌, refl, ascii, List, [], ◌∷◌, ◌++◌, All, arith, true}
use rsadb.Error.{ok, err, protocol, stale_frames}
use rsadb.Auth.{HostKey}
use rsadb.Wire.Command.{Command}
use rsadb.Wire.Message.{Message, message, version_offered}
use rsadb.Session.Banner.{Banner, parse, to_wire}
use rsadb.Session.Banner.RoundTrip.{IsBanner, IsPair, IsFeature, parse-to_wire}
use rsadb.Session.Handshake.{Event, arrives, lapse, handshake}
use rsadb.Session.Handshake.Negotiate.{Concluded, handshake-Concluded}
use rsadb.Session.Handshake.Stale.{
  SameEnd, is_stale, count_stale, without_stale, handshake-without_stale, handshake_too_stale,
}
use rsadb.Session.Handshake.Progress.{count_arrivals, followed, handshake-decided}

abbrev pixel : Banner
pixel = record {
  kind = ascii "device";
  properties =
      (ascii "ro.product.model", ascii "Pixel") ∷ (ascii "ro.product.name", ascii "sdk") ∷ [];
  features = ascii "shell_v2" ∷ ascii "cmd" ∷ [];
}

pixel-IsBanner : IsBanner pixel
pixel-IsBanner = record {
  kind_no_nul = omega arith;
  kind_no_colon = omega arith;
  sorted = ((refl, tt), (tt, tt));
  pairs = (model_pair, (name_pair, tt));
  features = (shell_feature, (cmd_feature, tt));
}
  where
    model_pair : IsPair (ascii "ro.product.model", ascii "Pixel")
    model_pair = record {
      key_no_nul = omega arith;
      value_no_nul = omega arith;
      key_no_equals = omega arith;
      key_no_semicolon = omega arith;
      value_no_semicolon = omega arith;
      not_features = λ h. cc;
    }

    name_pair : IsPair (ascii "ro.product.name", ascii "sdk")
    name_pair = record {
      key_no_nul = omega arith;
      value_no_nul = omega arith;
      key_no_equals = omega arith;
      key_no_semicolon = omega arith;
      value_no_semicolon = omega arith;
      not_features = λ h. cc;
    }

    shell_feature : IsFeature (ascii "shell_v2")
    shell_feature = record {
      no_nul = omega arith;
      no_comma = omega arith;
      no_semicolon = omega arith;
      non_empty = λ h. cc;
    }

    cmd_feature : IsFeature (ascii "cmd")
    cmd_feature = record {
      no_nul = omega arith;
      no_comma = omega arith;
      no_semicolon = omega arith;
      non_empty = λ h. cc;
    }

parse-to_wire_example : parse (to_wire pixel) ≡ pixel
parse-to_wire_example = parse-to_wire pixel pixel-IsBanner

abbrev test_key : HostKey
test_key = record { sign = λ token. ok (7 ∷ token); public_key_line = ok (ascii "KEY me@host") }

abbrev token_message : Message
token_message = message Command.auth 1 0 (ascii "01234567890123456789")

abbrev banner_message : Message
banner_message = message Command.connect version_offered 0 (ascii "device::")

abbrev late_close : Message
late_close = message Command.close 4 9 []

abbrev repeat : ℕ → Event → List Event
repeat ℕ.zero e = []
repeat (ℕ.suc n) e = e ∷ repeat n e

abbrev prompted : List Event
prompted =
    arrives token_message ∷ arrives late_close ∷ arrives token_message ∷ arrives banner_message ∷ []

handshake-Concluded_example : Concluded prompted (handshake test_key [] prompted)
handshake-Concluded_example = handshake-Concluded test_key [] prompted

handshake-without_stale_example :
    SameEnd (handshake test_key [] prompted) (handshake test_key [] (without_stale prompted))
unfolding count_stale
handshake-without_stale_example = handshake-without_stale test_key [] prompted (omega arith)

repeat-stale : (n : ℕ) → All (λ e. is_stale e ≡ true) (repeat n (arrives late_close))
repeat-stale ℕ.zero = tt
repeat-stale (ℕ.suc n) = (refl, repeat-stale n)

handshake_too_stale_example :
    ((handshake test_key [] (repeat 65 (arrives late_close) ++ (arrives banner_message ∷ []))).0
      ≡ err (protocol (stale_frames 65)))
    × ((handshake test_key [] (repeat 65 (arrives late_close) ++ (arrives banner_message ∷ []))).2
        ≡ arrives banner_message ∷ [])
handshake_too_stale_example =
    handshake_too_stale test_key (repeat 65 (arrives late_close)) (arrives banner_message ∷ [])
      (repeat-stale 65) refl

handshake-decided_example :
    handshake test_key [] (repeat 67 (arrives late_close) ++ (lapse ∷ []))
    ≡ followed test_key (handshake test_key [] (repeat 67 (arrives late_close))) (lapse ∷ [])
unfolding count_arrivals
handshake-decided_example =
    handshake-decided test_key [] (repeat 67 (arrives late_close)) (lapse ∷ []) (omega arith)

-- ===== src/Tunnel/MultiHop.antt =====
-- `MultiHopTunnel` of shinvpn/tunnel/multihop.py. Its pathfinder is of Tunnel/Pathfinder.antt.
pub mod Onion
use shin_vpn.Prelude.{
  ℕ, Bytes, [], Bool, true, false, Option, none, some, Result, ok, err, if◌then◌else◌,
}
use shin_vpn.Prelude.Errors
use shin_vpn.Prelude.Exec.{Exec, pure, lift, gets, modify, ◌>>=◌}
use shin_vpn.Prelude.Utf8.{Text}
use shin_vpn.Protocol.Frames.{FrameClass, data_packet, ShinFrame, new, to_bytes}
use shin_vpn.Protocol.Frames.MultiHopForward.{new_multihop_forward}
use shin_vpn.Protocol.Parse.{parse_frame}
use shin_vpn.Crypto.Aead.{Aead}
use shin_vpn.Crypto.Cipher.{ShinCipher, encrypt, decrypt}

pub record MultiHopTunnel : Type 0 where
  pub entry_endpoint : Text × ℕ
  pub exit_endpoint : Text × ℕ
  pub entry_cipher : ShinCipher
  pub exit_cipher : ShinCipher
  pub entry_session_id : ℕ
  pub exit_session_id : ℕ
  pub failover_active : Bool

unfoldable pub new_tunnel : Text × ℕ → Text × ℕ → ShinCipher → ShinCipher → MultiHopTunnel
new_tunnel entry_node_endpoint exit_node_endpoint entry_cipher exit_cipher = record {
  entry_endpoint = entry_node_endpoint;
  exit_endpoint = exit_node_endpoint;
  entry_cipher = entry_cipher;
  exit_cipher = exit_cipher;
  entry_session_id = entry_cipher.session_id;
  exit_session_id = exit_cipher.session_id;
  failover_active = false;
}

-- isinstance(frame, DataPacketFrame)
abbrev pub is_data_packet : FrameClass → Bool
is_data_packet data_packet = true
is_data_packet c = false

unfoldable pub trigger_auto_failover : Text × ℕ → MultiHopTunnel → MultiHopTunnel
trigger_auto_failover new_exit_endpoint t = record t {
  exit_endpoint = new_exit_endpoint;
  failover_active = true;
}

-- The sealed packet in a data frame for the exit, in a forward frame for the entry.
unfoldable pub forwarded : MultiHopTunnel → ℕ → Bytes → Result Bytes
forwarded t inner_seq inner_ciphertext =
    Errors.◌>>=◌ (to_bytes (new data_packet t.exit_session_id inner_seq inner_ciphertext))
      λ exit_raw.
        Errors.◌>>=◌
          (new_multihop_forward t.entry_session_id 0 t.exit_endpoint.0 t.exit_endpoint.1 exit_raw
            [])
          to_bytes

module _ (aead : Aead) where
  -- A call of the exit cipher's method on the tunnel that owns it.
  abbrev pub with_exit_cipher :
      {A : Type 0} → (ShinCipher → ShinCipher × Result A) → Exec MultiHopTunnel A
  with_exit_cipher call t =
      (record t { exit_cipher = (call t.exit_cipher).0 }, (call t.exit_cipher).1)

  unfoldable pub encapsulate_packet : Bytes → Exec MultiHopTunnel Bytes
  encapsulate_packet inner_ip_packet = do
    sealed ← with_exit_cipher (λ c. encrypt aead c inner_ip_packet none)
    t ← gets (λ t. t)
    lift (forwarded t sealed.0 sealed.1)

  -- What a raised exception becomes.
  abbrev pub or_none : MultiHopTunnel × Result (Option Bytes) → MultiHopTunnel × Option Bytes
  or_none (t, ok x) = (t, x)
  or_none (t, err e) = (t, none)

  unfoldable pub peel : ShinFrame → Exec MultiHopTunnel (Option Bytes)
  peel frame =
      if is_data_packet frame.class
      then (do
        plaintext ← with_exit_cipher (λ c. decrypt aead c frame.seq_num frame.payload none)
        pure (some plaintext))
      else pure none

  unfoldable pub decapsulate_packet : ℕ → Bytes → MultiHopTunnel → MultiHopTunnel × Option Bytes
  decapsulate_packet now raw_data_from_tunnel t =
      or_none ((lift (parse_frame now raw_data_from_tunnel) >>= peel) t)

-- ===== src/Server/Session/Streams.antt =====
-- What a client sends to a proxied connection, before the connection stands and after.
use shin_vpn.Prelude.{
  ℕ, Bytes, List, [], ◌∷◌, ◌++◌, true, false, none, some, ◌==◌, ==_iff, ◌≡◌, refl, arith, concat,
}
use mathlib.Core.List.{append_assoc, append-nil}
use shin_vpn.Prelude.Assoc.{lookup, insert, lookup-insert}
use shin_vpn.Crypto.Aead.{Aead}
use shin_vpn.Server.Session.{ClientSession, member, deliver, connection_opened}

-- The connection is being made, and `b` is kept for it.
pub record Pending (conn_id : ℕ) (b : Bytes) (s : ClientSession) : Type 0 where
  pub unopened : lookup ◌==◌ conn_id s.proxy_streams ≡ none
  pub connecting : member conn_id s.proxy_connecting ≡ true
  pub buffer : lookup ◌==◌ conn_id s.proxy_pending_buffers ≡ some b

-- The connection stands, and `b` was written to it.
abbrev pub Streaming : ℕ → Bytes → ClientSession → Type 0
Streaming conn_id b s =
    lookup ◌==◌ conn_id s.proxy_streams ≡ some (record { written = b; is_closing = false })

module _ (aead : Aead) where
  -- Chunks that arrive one after the other.
  unfoldable pub deliver_all : ℕ → List Bytes → ClientSession → ClientSession
  deliver_all conn_id [] s = s
  deliver_all conn_id (c ∷ cs) s = deliver_all conn_id cs (deliver aead conn_id c s)

  deliver_buffered :
      (conn_id : ℕ) (b c : Bytes) (s : ClientSession)
      → Pending conn_id b s
      → deliver aead conn_id c s
        ≡ record s { proxy_pending_buffers = insert ◌==◌ conn_id (b ++ c) s.proxy_pending_buffers }
  unfolding deliver
  deliver_buffered conn_id b c s p = rw (p.unopened, p.connecting, p.buffer, deliver) refl

  deliver-Pending :
      (conn_id : ℕ) (b c : Bytes) (s : ClientSession)
      → Pending conn_id b s
      → Pending conn_id (b ++ c) (deliver aead conn_id c s)
  deliver-Pending conn_id b c s p = rw (deliver_buffered conn_id b c s p) (record {
    unopened = p.unopened;
    connecting = p.connecting;
    buffer =
        ground (arith, lookup-insert ◌==◌ ==_iff conn_id conn_id (b ++ c) s.proxy_pending_buffers);
  })

  pub deliver-Streaming :
      (conn_id : ℕ) (b c : Bytes) (s : ClientSession)
      → Streaming conn_id b s
      → Streaming conn_id (b ++ c) (deliver aead conn_id c s)
  unfolding deliver
  deliver-Streaming conn_id b c s p =
      rw (p, deliver)
        (ground (
          arith,
          lookup-insert ◌==◌ ==_iff conn_id conn_id
              (record { written = b ++ c; is_closing = false }) s.proxy_streams,
        ))

  deliver_all-Pending :
      (conn_id : ℕ) (b : Bytes) (cs : List Bytes) (s : ClientSession)
      → Pending conn_id b s
      → Pending conn_id (b ++ concat cs) (deliver_all conn_id cs s)
  unfolding deliver_all
  deliver_all-Pending conn_id b [] s p = rw (append-nil b) p
  deliver_all-Pending conn_id b (c ∷ cs) s p = rw (← append_assoc b c (concat cs)) (
      deliver_all-Pending conn_id (b ++ c) cs (deliver aead conn_id c s)
        (deliver-Pending conn_id b c s p))

  deliver_all-Streaming :
      (conn_id : ℕ) (b : Bytes) (cs : List Bytes) (s : ClientSession)
      → Streaming conn_id b s
      → Streaming conn_id (b ++ concat cs) (deliver_all conn_id cs s)
  unfolding deliver_all
  deliver_all-Streaming conn_id b [] s p = rw (append-nil b) p
  deliver_all-Streaming conn_id b (c ∷ cs) s p = rw (← append_assoc b c (concat cs)) (
      deliver_all-Streaming conn_id (b ++ c) cs (deliver aead conn_id c s)
        (deliver-Streaming conn_id b c s p))

  connection_opened-Streaming :
      (conn_id : ℕ) (b : Bytes) (s : ClientSession)
      → Pending conn_id b s
      → Streaming conn_id b (connection_opened aead conn_id s)
  unfolding connection_opened
  connection_opened-Streaming conn_id b s p =
      rw (p.buffer, connection_opened)
        (ground (
          arith,
          lookup-insert ◌==◌ ==_iff conn_id conn_id (record { written = b; is_closing = false })
              s.proxy_streams,
        ))

  -- What the client sends while the connection is being made and what it sends afterwards is
  -- written to the remote end, all of it and in order.
  pub stream_in_order :
      (conn_id : ℕ) (early late : List Bytes) (s : ClientSession)
      → Pending conn_id [] s
      → Streaming conn_id
          (concat early ++ concat late)
          (deliver_all conn_id late (connection_opened aead conn_id (deliver_all conn_id early s)))
  stream_in_order conn_id early late s p =
      deliver_all-Streaming conn_id (concat early) late
        (connection_opened aead conn_id (deliver_all conn_id early s))
        (connection_opened-Streaming conn_id (concat early) (deliver_all conn_id early s)
          (deliver_all-Pending conn_id [] early s p))

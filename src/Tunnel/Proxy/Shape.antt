-- ===== src/Tunnel/Proxy/Shape.antt =====
-- The frames of one connection, whatever a local application sends.
use shin_vpn.Prelude.{
  ℕ, zero, suc, Bytes, List, [], ◌∷◌, ◌++◌, All, All-append, Bool, true, false, if◌then◌else◌,
  Result, ok, err, ◌≡◌, refl, ◌∙◌, length, drop,
}
use shin_vpn.Prelude.Exec.{Exec, continue}
use shin_vpn.Prelude.Utf8.{Text}
use shin_vpn.Prelude.Int.{ℤ, pos}
use shin_vpn.Prelude.Stream
use shin_vpn.Tunnel.Proxy.{
  ProxyFrame, Connection, head_or, write, send_frame_callback, pipe_rounds, pipe_client_to_tunnel,
  shielded,
}
use shin_vpn.Tunnel.Proxy.Keeping.{Same, Same-trans, after_Same, Same-write}

module _ {S : Type 0} (should_block : Text → Exec S Bool) where
  -- The frame that opens connection `id` to a host that the ad blocker let through.
  abbrev pub IsConnect : ℕ → ProxyFrame → Type 0
  IsConnect id f =
      (f.conn_id ≡ id) × (f.action ≡ 1) × (s : S) × ((should_block f.host s).1 ≡ ok false)

  abbrev pub IsData : ℕ → ProxyFrame → Type 0
  IsData id f = (f.conn_id ≡ id) × (f.action ≡ 2)

  -- Nothing, or a connect frame and then data.
  abbrev pub IsOpening : ℕ → List ProxyFrame → Type 0
  IsOpening id [] = Unit {0}
  IsOpening id (f ∷ fs) = IsConnect id f × All (IsData id) fs

  -- The same once the connect frame has been handed to the callback, where there is one.
  abbrev pub IsOpened : ℕ → Bool → List ProxyFrame → Type 0
  IsOpened id false fs = fs ≡ []
  IsOpened id true [] = ⊥
  IsOpened id true (f ∷ fs) = IsConnect id f × All (IsData id) fs

  IsOpening-IsOpened :
      (id : ℕ) (b : Bool) (fs : List ProxyFrame) → IsOpened id b fs → IsOpening id fs
  IsOpening-IsOpened id false [] h = tt
  IsOpening-IsOpened id false (f ∷ fs) h = absurd (cc)
  IsOpening-IsOpened id true [] h = tt
  IsOpening-IsOpened id true (f ∷ fs) h = h

  IsOpened-data :
      (id : ℕ) (b : Bool) (fs : List ProxyFrame) (d : ProxyFrame)
      → IsData id d
      → IsOpened id b fs
      → IsOpened id b (if b then fs ++ (d ∷ []) else fs)
  IsOpened-data id false fs d e h = h
  IsOpened-data id true [] d e h = absurd h
  IsOpened-data id true (f ∷ fs) d e h = (h.0, All-append (IsData id) fs (d ∷ []) h.1 (e, tt))

  module _ (c0 : Connection S) (fresh : c0.frames ≡ []) where
    pub record Opened (c : Connection S) : Type 0 where
      pub conn_id : c.conn_id ≡ c0.conn_id
      pub has_callback : c.has_callback ≡ c0.has_callback
      pub opened : IsOpened c0.conn_id c.has_callback c.frames

    pub record Shaped (c : Connection S) : Type 0 where
      pub conn_id : c.conn_id ≡ c0.conn_id
      pub has_callback : c.has_callback ≡ c0.has_callback
      pub opening : IsOpening c0.conn_id c.frames

    IsOpening-of_nil : (fs : List ProxyFrame) → fs ≡ [] → IsOpening c0.conn_id fs
    IsOpening-of_nil [] e = tt
    IsOpening-of_nil (f ∷ fs) e = absurd (cc)

    pub Shaped-of_Same : (c : Connection S) → Same c0 c → Shaped c
    Shaped-of_Same c h = record {
      conn_id = h.conn_id;
      has_callback = h.has_callback;
      opening = IsOpening-of_nil c.frames (h.frames ∙ fresh);
    }

    pub Shaped-of_Opened : (c : Connection S) → Opened c → Shaped c
    Shaped-of_Opened c h = record {
      conn_id = h.conn_id;
      has_callback = h.has_callback;
      opening = IsOpening-IsOpened c0.conn_id c.has_callback c.frames h.opened;
    }

    pub Opened-of_Same : (c d : Connection S) → Opened c → Same c d → Opened d
    Opened-of_Same c d h k = record {
      conn_id = k.conn_id ∙ h.conn_id;
      has_callback = k.has_callback ∙ h.has_callback;
      opened = rw (k.frames, k.has_callback) h.opened;
    }

    pub Opened-callback :
        (host : Text) (port : ℤ) (payload : Bytes) (c : Connection S)
        → Opened c
        → Opened (send_frame_callback 2 host port payload c).0
    unfolding send_frame_callback
    Opened-callback host port payload c h = by_callback c.has_callback refl
      where
        sent : List ProxyFrame
        sent =
            c.frames
            ++ ((record {
              conn_id = c.conn_id;
              action = 2;
              host = host;
              port = port;
              payload = payload;
            })
                ∷ [])

        by_callback :
            (b : Bool) → c.has_callback ≡ b → Opened (if b then record c { frames = sent } else c)
        by_callback true e = record {
          conn_id = h.conn_id;
          has_callback = h.has_callback;
          opened =
              rw e (IsOpened-data c0.conn_id true c.frames _ (h.conn_id, refl) (rw e at h.opened));
        }
        by_callback false e = h

    connect-Opened :
        (host : Text) (port : ℤ) (c : Connection S) (s : S)
        → (should_block host s).1 ≡ ok false
        → Same c0 c
        → Opened (send_frame_callback 1 host port [] c).0
    unfolding send_frame_callback
    connect-Opened host port c s let_through h = by_callback c.has_callback refl
      where
        sent : List ProxyFrame
        sent =
            c.frames
            ++ ((record { conn_id = c.conn_id; action = 1; host = host; port = port; payload = [] })
                ∷ [])

        by_callback :
            (b : Bool) → c.has_callback ≡ b → Opened (if b then record c { frames = sent } else c)
        by_callback true e = record {
          conn_id = h.conn_id;
          has_callback = h.has_callback;
          opened = rw (e, h.frames, fresh) ((h.conn_id, refl, s, let_through), tt);
        }
        by_callback false e = record {
          conn_id = h.conn_id;
          has_callback = h.has_callback;
          opened = rw (e, h.frames) fresh;
        }

    Opened-pipe_rounds : (fuel : ℕ) (c : Connection S) → Opened c → Opened (pipe_rounds fuel c)
    unfolding pipe_rounds
    Opened-pipe_rounds zero c h = h
    Opened-pipe_rounds (suc left) c h =
        by_running (Opened-pipe_rounds left)
          (head_or (record { running = true; there = length c.reader }) c.rounds).running
      where
        read_to : Bytes × Bytes
        read_to =
            Stream.read 2048
              (head_or (record { running = true; there = length c.reader }) c.rounds).there c.reader

        after_read : Connection S
        after_read = record c { reader = read_to.0; rounds = drop 1 c.rounds }

        after_read-Opened : Opened after_read
        after_read-Opened = record {
          conn_id = h.conn_id;
          has_callback = h.has_callback;
          opened = h.opened;
        }

        by_bytes :
            ((d : Connection S) → Opened d → Opened (pipe_rounds left d))
            → (bs : Bytes)
            → Opened (elim bs as (λ _. Connection S) [
              | [] ↦ after_read
              | b ∷ bs ↦ pipe_rounds left (send_frame_callback 2 [] (pos 0) (b ∷ bs) after_read).0
            ])
        by_bytes again [] = after_read-Opened
        by_bytes again (b ∷ bs) =
            again _ (Opened-callback [] (pos 0) (b ∷ bs) after_read after_read-Opened)

        by_running :
            ((d : Connection S) → Opened d → Opened (pipe_rounds left d))
            → (b : Bool)
            → Opened (elim b as (λ _. Connection S) [
              | false ↦ c
              | true ↦ elim (read_to.1) as (λ _. Connection S) [
                | [] ↦ after_read
                | b ∷ bs ↦ pipe_rounds left (send_frame_callback 2 [] (pos 0) (b ∷ bs) after_read).0
              ]
            ])
        by_running again true = by_bytes again read_to.1
        by_running again false = h

    pub Opened-pipe : (c : Connection S) → Opened c → Opened (pipe_client_to_tunnel c).0
    unfolding pipe_client_to_tunnel
    Opened-pipe c h = Opened-pipe_rounds (suc (length c.reader)) c h

    -- A reply, and then the loop.
    pub Opened-reply :
        (reply : Bytes) (c : Connection S)
        → Opened c
        → Opened (continue (write reply c) (λ _. pipe_client_to_tunnel)).0
    Opened-reply reply c h =
        after_Same Opened c (write reply c) (λ _. pipe_client_to_tunnel) (Same-write reply c)
          (λ d k. Opened-of_Same c d h k) (λ _ d k. Opened-pipe d (Opened-of_Same c d h k))

    -- The question to the ad blocker: a refusal, or what follows the connect frame.
    pub Shaped-target :
        (host : Text) (port : ℤ) (refusal : Bytes) (rest : Exec (Connection S) (Unit {0}))
        (c : Connection S)
        → Same c0 c
        → ((d : Connection S) → Opened d → Opened (rest d).0)
        → Shaped
            (continue (shielded should_block host c) (λ blocked.
              if blocked
              then write refusal
              else (λ d. continue (send_frame_callback 1 host port [] d) (λ _. rest)))).0
    unfolding shielded send_frame_callback
    Shaped-target host port refusal rest c h keeps = by_answer (should_block host c.shield).1 refl
      where
        asked : Connection S
        asked = record c { shield = (should_block host c.shield).0 }

        asked-Same : Same c0 asked
        asked-Same = record {
          frames = h.frames;
          conn_id = h.conn_id;
          has_callback = h.has_callback;
        }

        by_answer :
            (r : Result Bool)
            → (should_block host c.shield).1 ≡ r
            → Shaped
                (continue
                  (asked, r)
                  (λ blocked.
                    if◌then◌else◌ {A = Exec (Connection S) (Unit {0})} blocked
                      (write refusal)
                      (λ d. continue (send_frame_callback 1 host port [] d) (λ _. rest)))).0
        by_answer (err e) q = Shaped-of_Same asked asked-Same
        by_answer (ok true) q =
            Shaped-of_Same _ (Same-trans c0 asked _ asked-Same (Same-write refusal asked))
        by_answer (ok false) q =
            Shaped-of_Opened _ (keeps _ (connect-Opened host port asked c.shield q asked-Same))

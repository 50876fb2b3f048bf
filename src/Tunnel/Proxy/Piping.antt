-- ===== src/Tunnel/Proxy/Piping.antt =====
-- The loop that pipes an application's data into the tunnel.
use mathlib.Core.List.{append-nil, append_assoc}
use shin_vpn.Prelude.{
  ℕ, zero, suc, ◌≤◌, ◌<◌, min, max, Bytes, List, [], ◌∷◌, ◌++◌, map, All, Bool, true, if◌then◌else◌,
  ◌≡◌, refl, sym, ap, ◌∙◌, Result, ok, length, take, drop, arith, take-append-drop, length-drop,
  concat,
}
use shin_vpn.Prelude.Utf8.{Text}
use shin_vpn.Prelude.Int.{ℤ, pos}
use shin_vpn.Prelude.Stream
use shin_vpn.Tunnel.Proxy.{ProxyFrame, Round, Connection, head_or, send_frame_callback, pipe_rounds}

abbrev pub data_frame : ℕ → Bytes → ProxyFrame
data_frame id payload = record {
  conn_id = id;
  action = 2;
  host = [];
  port = pos 0;
  payload = payload;
}

-- What one frame carries: something, and no more than a read returns.
abbrev pub IsPiece : Bytes → Type 0
IsPiece d = (0 < length d) × (length d ≤ 2048)

abbrev pub Runs : Round → Type 0
Runs r = r.running ≡ true

length-take-min : (n : ℕ) (xs : Bytes) → length (take n xs) ≡ min n (length xs)
length-take-min zero xs = ground arith
length-take-min (suc n) [] = ground arith
length-take-min (suc n) (x ∷ xs) = omega (arith, length-take-min n xs)

-- All there was to read has been sent, and nothing else has changed.
abbrev pub Piped : {S : Type 0} → Connection S → Connection S → Type 0
Piped c c' =
    (ds : List Bytes) × (c'.frames ≡ c.frames ++ map (data_frame c.conn_id) ds)
    × (concat ds ≡ c.reader)
    × All IsPiece ds
    × (c'.reader ≡ [])
    × (c'.replies ≡ c.replies)
    × (c'.shield ≡ c.shield)
    × (c'.has_callback ≡ c.has_callback)
    × (c'.conn_id ≡ c.conn_id)

All-drop_one : (rs : List Round) → All Runs rs → All Runs (drop 1 rs)
All-drop_one [] h = tt
All-drop_one (r ∷ rs) h = h.1

head-Runs :
    (n : ℕ) (rs : List Round)
    → All Runs rs
    → (head_or (record { running = true; there = n }) rs).running ≡ true
head-Runs n [] h = refl
head-Runs n (r ∷ rs) h = h.0

nothing_taken : (n : ℕ) (xs : Bytes) → 0 < n → take n xs ≡ [] → drop n xs ≡ []
nothing_taken zero xs h e = absurd (omega arith)
nothing_taken (suc n) [] h e = refl
nothing_taken (suc n) (x ∷ xs) h e = absurd (cc)

module _ {S : Type 0} where
  pub send_frame_callback_lem :
      (action : ℕ) (host : Text) (port : ℤ) (payload : Bytes) (c : Connection S)
      → c.has_callback ≡ true
      → send_frame_callback action host port payload c ≡ (
        record c {
          frames =
              c.frames
              ++ ((record {
                conn_id = c.conn_id;
                action = action;
                host = host;
                port = port;
                payload = payload;
              })
                  ∷ []);
        },
        ok tt,
      )
  unfolding send_frame_callback
  send_frame_callback_lem action host port payload c callback =
      ap {A = Bool} {B = Connection S × Result (Unit {0})}
        (λ b. (
          (if b
              then record c {
                frames =
                    c.frames
                    ++ ((record {
                      conn_id = c.conn_id;
                      action = action;
                      host = host;
                      port = port;
                      payload = payload;
                    })
                        ∷ []);
              }
              else c),
          ok tt,
        ))
        callback

  round_pipes :
      (fuel : ℕ) (c : Connection S) (r : Bytes × Bytes)
      → c.has_callback ≡ true
      → r.1 ++ r.0 ≡ c.reader
      → length r.1 ≤ 2048
      → (r.1 ≡ [] → r.0 ≡ [])
      → ((d : Connection S)
          → d.has_callback ≡ true
          → d.rounds ≡ drop 1 c.rounds
          → d.reader ≡ r.0
          → 0 < length r.1
          → Piped d (pipe_rounds fuel d))
      → Piped c (elim r.1 as (λ _. Connection S) [
        | [] ↦ record c { reader = r.0; rounds = drop 1 c.rounds }
        | b ∷ bs ↦
            pipe_rounds fuel
              (send_frame_callback 2 []
                (pos 0)
                (b ∷ bs)
                (record c { reader = r.0; rounds = drop 1 c.rounds })).0
      ])
  round_pipes fuel c (left, []) callback parts small end again =
      ([], sym (append-nil c.frames), sym (end refl) ∙ parts, tt, end refl, refl, refl, refl, refl)
  round_pipes fuel c (left, b ∷ bs) callback parts small end again =
      let sent : Connection S = record c {
        reader = left;
        rounds = drop 1 c.rounds;
        frames = c.frames ++ (data_frame c.conn_id (b ∷ bs) ∷ []);
      } in
      rw
        (send_frame_callback_lem 2 [] (pos 0) (b ∷ bs)
          (record c { reader = left; rounds = drop 1 c.rounds }) callback)
        (let (ds, frames, all_of, pieces, end', replies, shield, callback', conn_id) =
            again sent callback refl refl (omega arith) in
          (
            (b ∷ bs) ∷ ds,
            frames
                ∙ append_assoc c.frames (data_frame c.conn_id (b ∷ bs) ∷ [])
                    (map (data_frame c.conn_id) ds),
            ap (◌++◌ (b ∷ bs)) all_of ∙ parts,
            ((omega arith, small), pieces),
            end',
            replies,
            shield,
            callback',
            conn_id,
          ))

  -- While the gateway runs, a loop that may take more rounds than there are bytes left ends because
  -- everything has been read: the tunnel has got all of it and in order, in pieces of 1 to 2048 bytes,
  -- and the replies, the ad blocker, the callback and the number of the connection are as they were.
  pub pipe_rounds-Piped :
      (fuel : ℕ) (c : Connection S)
      → length c.reader < fuel
      → c.has_callback ≡ true
      → All Runs c.rounds
      → Piped c (pipe_rounds fuel c)
  unfolding pipe_rounds Stream.read
  pipe_rounds-Piped zero c enough callback runs = absurd (omega arith)
  pipe_rounds-Piped (suc fuel) c enough callback runs =
      let round = head_or (record { running = true; there = length c.reader }) c.rounds in
      let n = min 2048 (max 1 round.there) in
      rw (head-Runs (length c.reader) c.rounds runs, pipe_rounds)
        (round_pipes fuel c (Stream.read 2048 round.there c.reader) callback
          (take-append-drop n c.reader) (omega (arith, length-take-min n c.reader))
          (nothing_taken n c.reader (omega arith))
          (λ d callback' rounds reader some_taken.
            pipe_rounds-Piped fuel d
              (omega (arith, ap length reader, length-drop n c.reader, length-take-min n c.reader))
              callback' (rw rounds (All-drop_one c.rounds runs))))

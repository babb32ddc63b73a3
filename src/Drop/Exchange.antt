-- ===== src/Drop/Exchange.antt =====
-- drop_channel.rs: `DropSenderCore` and `DropReceiverCore` over a link that loses nothing.
use telesthete.Base.{
  opens, ℕ, zero, suc, ◌+◌, ◌-◌, ◌*◌, ◌^◌, ◌≤◌, ◌<◌, ◌≡◌, refl, sym, ap, subst, ◌∙◌, max, List, [],
  ◌∷◌, ◌++◌, length, arith, Option, none, some, Bool, true, ℕ_discrete, if_pos,
}
use telesthete.Base.Bytes.{Bytes}
use telesthete.Base.Maps.{find, insert, find-insert, Distinct}
use telesthete.Drop.{IsOffer, Json, IsJson, json_frame}
use telesthete.Drop.Sender.{DropSenderCore, chunk_of, chunk_frame, chunk_frames, offer_of, div_ceil}
use telesthete.Drop.Sender
use telesthete.Drop.Receiver.{
  new, on_offer, DropReceiverCore, on_offer, new, request_missing, handle_frame,
}
use telesthete.Drop.Content.{Below, Honest}
use telesthete.Drop.Steps.{IsSender, Holding, request-chunk_frames}
use telesthete.Drop.Window.{length-Waiting, length-Waiting, Waiting, feed_all}
use telesthete.Drop.Transfer.{request_of, finished, asked, window-Led, request-Waiting}
use telesthete.Base.Text.{text_eq-same, Text}

module _ {Addr : Type 0} where
  module _ (d : Discrete Addr) (json : Json) (sha256 : Bytes → Bytes) (now : ℕ) where
    -- The receiver at `to` and the sender at `from` on a link that loses nothing, while requests
    -- are under way: each frame goes to the sender, its answers to the receiver. `none` is a panic,
    -- or more than `fuel` frames to the sender.
    unfoldable pub exchange :
        ℕ
        → DropSenderCore Addr
        → DropReceiverCore Addr
        → Addr
        → Addr
        → List Bytes
        → Option (DropSenderCore Addr × DropReceiverCore Addr)
    exchange zero s c from to frames = none
    exchange (suc fuel) s c from to [] = some (s, c)
    exchange (suc fuel) s c from to (f ∷ fs) =
        let answer = Sender.handle_frame json d s to f in
        elim (feed_all json sha256 c from answer.1 now) [
          | none ↦ none
          | some step ↦ exchange fuel answer.0 step.0 from to (fs ++ step.1)
        ]

    -- The receiver once it has the offer.
    offered : DropSenderCore Addr → List (ℕ × Bytes) → Addr → DropReceiverCore Addr
    offered s have_ from = record (new have_) {
      offer = some (offer_of s);
      sender_addr = some from;
      last_progress = some now;
    }

    exchange_step :
        (fuel : ℕ) (s s' : DropSenderCore Addr) (c c' : DropReceiverCore Addr) (from to : Addr)
        (f : Bytes) (frames out : List Bytes) (verdict : Option Bool)
        → Sender.handle_frame json d s to f ≡ (s', frames, verdict)
        → feed_all json sha256 c from frames now ≡ some (c', out)
        → exchange (suc fuel) s c from to (f ∷ []) ≡ exchange fuel s' c' from to out
    unfolding exchange
    exchange_step fuel s s' c c' from to f frames out verdict e es =
        ap
          (λ (r : DropSenderCore Addr × List Bytes × Option Bool).
            elim (feed_all json sha256 c from r.1 now)
              as (λ x. Option (DropSenderCore Addr × DropReceiverCore Addr)) [
                | none ↦ none
                | some step ↦ exchange fuel r.0 step.0 from to ([] ++ step.1)
              ])
          e
        ∙ opens _ _ _ _ es

    -- The sender takes the verdict of a receiver that has the file.
    done-completed :
        (s : DropSenderCore Addr) (to : Addr)
        → IsJson json
        → Sender.handle_frame json d s to (json_frame 4 (json.write_done s.sha256))
          ≡ (record s { completed = insert d to true s.completed }, [], some true)
    unfolding Sender.handle_frame json_frame
    done-completed s to ok = rw (ok.done s.sha256, text_eq-same s.sha256) refl

    exchange-done :
        (fuel : ℕ) (s : DropSenderCore Addr) (c : DropReceiverCore Addr) (from to : Addr)
        → IsJson json
        → 2 ≤ fuel
        → exchange fuel s c from to (json_frame 4 (json.write_done s.sha256) ∷ [])
          ≡ some (record s { completed = insert d to true s.completed }, c)
    exchange-done zero s c from to ok le = absurd (omega arith)
    exchange-done (suc zero) s c from to ok le = absurd (omega arith)
    exchange-done (suc (suc fuel)) s c from to ok le =
        exchange_step (suc fuel) s _ c c from to _ [] [] (some true) (done-completed s to ok)
          (unfold feed_all in refl)
        ∙ unfold exchange in refl

    exchange-Waiting :
        (fuel : ℕ) (s : DropSenderCore Addr) (c : DropReceiverCore Addr) (from to : Addr) (lo n : ℕ)
        → IsJson json
        → IsSender sha256 s
        → Waiting s from lo n c
        → s.total_chunks + 2 ≤ length c.have_ + fuel
        → (s' : DropSenderCore Addr) × (c' : DropReceiverCore Addr) × (exchange fuel s c from to
              (request_of json lo n ∷ [])
            ≡ some (s', c'))
          × (c'.completion ≡ some (s.data_, true))
          × (c'.verified ≡ some true)
          × (find d to s'.completed ≡ some true)
    exchange-Waiting zero s c from to lo n ok v w enough =
        absurd (omega (arith, length-Waiting json sha256 s from lo n c w))
    exchange-Waiting (suc fuel) s c from to lo n ok v w enough =
        let (c', out, fed, led) =
          window-Led json sha256 now s v from n lo lo n c refl (omega arith) w
            (λ k le lt. absurd (omega arith)) in
        let step : exchange (suc fuel) s c from to (request_of json lo n ∷ [])
            ≡ exchange fuel s c' from to out =
          exchange_step fuel s s c c' from to _ _ out none
            (request-chunk_frames json sha256 d ok s to lo n v w.inside w.few) fed in
        elim led [
          | finished done good e ↦ (
            record s { completed = insert d to true s.completed },
            c',
            step
                ∙ ap (exchange fuel s c' from to) e
                ∙ exchange-done fuel s c' from to ok
                    (omega (arith, length-Waiting json sha256 s from lo n c w)),
            done,
            good,
            find-insert d to to true s.completed ∙ if_pos (d to to) refl _ _,
          )
          | asked lo' n' w' more e ↦
              let (s2, c2, run, done, good, verdict) =
                exchange-Waiting fuel s c' from to lo' n' ok v w' (omega arith) in
              (s2, c2, step ∙ ap (exchange fuel s c' from to) e ∙ run, done, good, verdict)
        ]

    -- A receiver takes the offer and asks for what it lacks.
    handle_frame-offer :
        (s : DropSenderCore Addr) (have_ : List (ℕ × Bytes)) (from : Addr)
        → IsJson json
        → IsOffer (offer_of s)
        → handle_frame json sha256 (new have_) from (Sender.offer_frame json s) now
          ≡ some (request_missing json (offered s have_ from))
    unfolding handle_frame Sender.offer_frame json_frame on_offer new offered
    handle_frame-offer s have_ from ok fits = rw (ok.offer (offer_of s) fits) refl

    exchange-offered :
        (s : DropSenderCore Addr) (have_ : List (ℕ × Bytes)) (from to : Addr)
        → IsJson json
        → IsSender sha256 s
        → Holding s (offered s have_ from)
        → length have_ < s.total_chunks
        → (c : DropReceiverCore Addr) × (frames : List Bytes) × (handle_frame json sha256
              (new have_)
              from
              (Sender.offer_frame json s)
              now
            ≡ some (c, frames))
          × (s' : DropSenderCore Addr) × (c' : DropReceiverCore Addr) × (exchange
                (s.total_chunks + 2)
                s
                c
                from
                to
                frames
              ≡ some (s', c'))
          × (c'.completion ≡ some (s.data_, true))
          × (c'.verified ≡ some true)
          × (find d to s'.completed ≡ some true)
    unfolding offered new
    exchange-offered s have_ from to ok v held less =
        let (c, lo, n, asks, w, same) =
          request-Waiting json sha256 now s v from (offered s have_ from) held refl refl less in
        let fits : IsOffer (offer_of s) =
          unfold offer_of in
          record {
            size = omega (arith, v.covers, v.small);
            chunk_size = omega arith;
            total_chunks = omega (arith, v.small);
          } in
        let (s', c', run, done, good, verdict) =
          exchange-Waiting (s.total_chunks + 2) s c from to lo n ok v w (omega arith) in
        (
          c,
          request_of json lo n ∷ [],
          handle_frame-offer s have_ from ok fits ∙ ap some asks,
          s',
          c',
          run,
          done,
          good,
          verdict,
        )

    new-total_chunks :
        (name : Text) (data_ : Bytes)
        → length data_ ≤ (2 ^ 32 - 64) * 1024
        → (Sender.new {Addr = Addr} sha256 name data_).total_chunks
          ≡ max 1 (div_ceil (length data_))
    unfolding Sender.new div_ceil
    new-total_chunks name data_ size = omega arith

    new-IsSender :
        (name : Text) (data_ : Bytes)
        → length data_ ≤ (2 ^ 32 - 64) * 1024
        → IsSender sha256 (Sender.new {Addr = Addr} sha256 name data_)
    unfolding Sender.new div_ceil
    new-IsSender name data_ size = record {
      digest = refl;
      small = omega arith;
      covers = omega arith;
    }

    -- A file of at most 2^32 - 64 chunks goes over a link that loses nothing: a receiver that
    -- starts with some of its chunks, none of them foreign and at least one missing, and gets the
    -- sender's offer, asks for windows until it has the file with a matching digest, and the
    -- sender takes its verdict. The sender handles at most one frame for each chunk and two more.
    pub exchange-completes :
        (name : Text) (data_ : Bytes) (have_ : List (ℕ × Bytes)) (from to : Addr)
        → IsJson json
        → length data_ ≤ (2 ^ 32 - 64) * 1024
        → Distinct ℕ_discrete have_
        → Below (max 1 (div_ceil (length data_))) have_
        → Honest data_ have_
        → length have_ < max 1 (div_ceil (length data_))
        → (let s = Sender.new sha256 name data_ in
            (c : DropReceiverCore Addr) × (frames : List Bytes) × (handle_frame json sha256
                (new have_)
                from
                (Sender.offer_frame json s)
                now
              ≡ some (c, frames))
            × (s' : DropSenderCore Addr) × (c' : DropReceiverCore Addr) × (exchange
                  (s.total_chunks + 2)
                  s
                  c
                  from
                  to
                  frames
                ≡ some (s', c'))
            × (c'.completion ≡ some (data_, true))
            × (c'.verified ≡ some true)
            × (find d to s'.completed ≡ some true))
    exchange-completes name data_ have_ from to ok size distinct below honest less =
        let s : DropSenderCore Addr = Sender.new sha256 name data_ in
        let total : s.total_chunks ≡ max 1 (div_ceil (length data_)) =
          new-total_chunks name data_ size in
        let held : Holding s (offered s have_ from) =
          unfold offered new Sender.new in
          record {
            offer = refl;
            distinct = distinct;
            below = subst (λ n. Below n have_) (sym total) below;
            honest = honest;
          } in
        unfold Sender.new in
        exchange-offered s have_ from to ok (new-IsSender name data_ size) held
          (omega (arith, less))

-- ===== src/Channel/Sending.antt =====
-- A `send` of src/channel.rs on a channel that refuses none.
use rsadb.Base.{
  ◌≡◌, refl, ap, sym, ◌∙◌, concat, append-nil, append_assoc, ◌++◌, Bytes, List, [], ◌∷◌,
}
use rsadb.Error.{Result, ok}
use rsadb.Channel.{ChannelReader, Reads, bind_result, send, send_next}
use rsadb.Channel.Reading.{Holds}

-- What the channel has been given, as one text.
abbrev pub all_sent : ChannelReader → Bytes
all_sent r = concat r.channel.sent

-- The bytes have been sent; the reader has the same to come, and its channel refuses no `send`.
pub record Writes (out : Bytes) (r s : ChannelReader) : Type 0 where
  pub wrote : all_sent s ≡ all_sent r ++ out
  pub same_incoming : s.channel.incoming ≡ r.channel.incoming
  pub same_buffer : s.buffer ≡ r.buffer
  pub same_outcomes : s.channel.outcomes ≡ []

concat-append : (xs : List Bytes) (x : Bytes) → concat (xs ++ (x ∷ [])) ≡ concat xs ++ x
concat-append [] x = append-nil x
concat-append (y ∷ xs) x = rw (concat-append xs x) (sym (append_assoc y (concat xs) x))

-- A computation that succeeds and sends some bytes.
abbrev pub Puts : Bytes → ChannelReader → Result (Unit {0}) × ChannelReader → Type 0
Puts out r x = (s : ChannelReader) × (x ≡ (ok tt, s)) × Writes out r s

pub send-Puts :
    (bytes : Bytes) (r : ChannelReader) → r.channel.outcomes ≡ [] → Puts bytes r (send bytes r)
unfolding send send_next
send-Puts bytes r quiet =
    let c = r.channel in
    (
      record r { channel = record c { sent = c.sent ++ (bytes ∷ []) } },
      rw quiet refl,
      record {
        wrote = concat-append c.sent bytes;
        same_incoming = refl;
        same_buffer = refl;
        same_outcomes = quiet;
      },
    )

pub Writes-append :
    (a b : Bytes) (r s t : ChannelReader) → Writes a r s → Writes b s t → Writes (a ++ b) r t
Writes-append a b r s t w v = record {
  wrote = v.wrote ∙ (ap (λ x. x ++ b) w.wrote ∙ append_assoc (all_sent r) a b);
  same_incoming = v.same_incoming ∙ w.same_incoming;
  same_buffer = v.same_buffer ∙ w.same_buffer;
  same_outcomes = v.same_outcomes;
}

-- One behind the other.
pub bind-Puts :
    (a b : Bytes) (r : ChannelReader) (x : Result (Unit {0}) × ChannelReader)
    (k : Unit {0} → Reads (Unit {0}))
    → Puts a r x
    → ((s : ChannelReader) → s.channel.outcomes ≡ [] → Puts b s (k tt s))
    → Puts (a ++ b) r (bind_result k x)
bind-Puts a b r x k (s, e, w) go =
    let (t, e', v) = go s w.same_outcomes in
    (t, ap (bind_result k) e ∙ e', Writes-append a b r s t w v)

pub nothing-Puts : (r : ChannelReader) → r.channel.outcomes ≡ [] → Writes [] r r
nothing-Puts r quiet = record {
  wrote = sym (append-nil (all_sent r));
  same_incoming = refl;
  same_buffer = refl;
  same_outcomes = quiet;
}

pub Writes-Holds :
    (out : Bytes) (r s : ChannelReader) (p : Bytes) → Writes out r s → Holds r p → Holds s p
Writes-Holds out r s p k (q, pending, e) = (q, rw k.same_incoming pending, rw k.same_buffer e)

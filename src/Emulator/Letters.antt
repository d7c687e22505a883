-- ===== src/Emulator/Letters.antt =====
-- The two queues of src/eventqueue_emulator.h hold two lists of letters.
use message_center_cpp.Common.{
  ℕ, suc, ◌%◌, ◌^◌, ◌≤◌, ◌≡◌, refl, ap, ◌∙◌, true, false, Option, some, List, [], ◌∷◌, ◌++◌, length,
  take, arith,
}
use message_center_cpp.Mpmc.Arith.{IsCapacity}
use message_center_cpp.Payload.{Store}
use message_center_cpp.Mailbox.{Mailbox, Outside, recycle}
use message_center_cpp.Mailbox.Queued.{Queued, receive-nil, receive-cons}
use message_center_cpp.Message.{FastObserver, FastCall}
use message_center_cpp.Message.Letters.{Letter, calls_of, bytes_at}
use message_center_cpp.Message.Compose.{copy_inline_lem}
use message_center_cpp.Message.Mail.{Mail, deliver-Mail_nil, deliver-Mail_cons}
use message_center_cpp.Emulator.{
  emu_inline_max, EmuFastMessage, Emulator, compose_fast, fast_calls, dispatch_fast, dispatch_bulk,
}

-- The message says what the letter says.
pub record FastCarries (m : EmuFastMessage) (l : Letter) : Type 0 where
  pub topic : m.topic_id ≡ l.topic_id
  pub observers : m.observers ≡ l.observers
  pub size : m.payload_size ≡ length l.bytes
  pub content : take m.payload_size m.bytes ≡ l.bytes

abbrev pub AllFastCarry : List EmuFastMessage → List Letter → Type 0
AllFastCarry [] [] = Unit
AllFastCarry [] (l ∷ ls) = true ≡ false
AllFastCarry (m ∷ ms) [] = true ≡ false
AllFastCarry (m ∷ ms) (l ∷ ls) = FastCarries m l × AllFastCarry ms ls

-- The fast queue holds the letters.
pub record FastMail (cap : ℕ) (b : Mailbox EmuFastMessage) (free nodes : List ℕ) (ls : List Letter)
    : Type 0 where
  pub messages : List EmuFastMessage
  pub queued : Queued cap b free nodes messages
  pub carried : AllFastCarry messages ls

pub AllFastCarry-length :
    (ms : List EmuFastMessage) (ls : List Letter) → AllFastCarry ms ls → length ms ≡ length ls
AllFastCarry-length [] [] v = refl
AllFastCarry-length [] (l ∷ ls) v = ground arith
AllFastCarry-length (m ∷ ms) [] v = ground arith
AllFastCarry-length (m ∷ ms) (l ∷ ls) v = ap suc (AllFastCarry-length ms ls v.1)

pub AllFastCarry-append :
    (ms : List EmuFastMessage) (ls : List Letter) (m : EmuFastMessage) (l : Letter)
    → AllFastCarry ms ls
    → FastCarries m l
    → AllFastCarry (ms ++ m ∷ []) (ls ++ l ∷ [])
AllFastCarry-append [] [] m l v w = (w, tt)
AllFastCarry-append [] (l' ∷ ls) m l v w = ground arith
AllFastCarry-append (m' ∷ ms) [] m l v w = ground arith
AllFastCarry-append (m' ∷ ms) (l' ∷ ls) m l v w = (v.0, AllFastCarry-append ms ls m l v.1 w)

-- Up to 48 bytes fit the message, and their number its `uint8_t`.
pub compose_fast-Carries :
    (os : List FastObserver) (topic_id : ℕ) (bytes : Option (List ℕ)) (old : EmuFastMessage)
    → length (bytes_at bytes) ≤ emu_inline_max
    → FastCarries
        (compose_fast os topic_id bytes (length (bytes_at bytes)) old)
        (record { topic_id = topic_id; bytes = bytes_at bytes; observers = os })
unfolding compose_fast
compose_fast-Carries os topic_id bytes old fits =
    let whole : length (bytes_at bytes) % 2 ^ 8 ≡ length (bytes_at bytes) = omega arith in
    record {
      topic = refl;
      observers = refl;
      size = whole;
      content = rw whole (copy_inline_lem bytes old.bytes);
    }

fast_calls-Carries : (m : EmuFastMessage) (l : Letter) → FastCarries m l → fast_calls m ≡ calls_of l
unfolding fast_calls
fast_calls-Carries m l v = rw (v.content, v.topic, v.size, v.observers) refl

-- Where the nodes of an emulator's queues are.
pub record Nodes : Type 0 where
  pub fast_free : List ℕ
  pub fast_nodes : List ℕ
  pub bulk_free : List ℕ
  pub bulk_nodes : List ℕ

-- The fast queue holds the letters `fs` and the bulk queue `bs`; the store has the payloads of these
-- besides those of `before`.
pub record Holding (fcap bcap : ℕ) (before : Store) (e : Emulator) (ns : Nodes)
    (fs bs : List Letter) : Type 0 where
  pub fast : FastMail fcap e.fast ns.fast_free ns.fast_nodes fs
  pub bulk : Mail bcap before e.bulk e.payloads ns.bulk_free ns.bulk_nodes bs

-- An emulator that has gone on from `e` with some calls, and now holds `fs` and `bs`.
pub record After (fcap bcap : ℕ) (before : Store) (e : Emulator) (calls : List FastCall)
    (fs bs : List Letter) (e' : Emulator) : Type 0 where
  pub nodes : Nodes
  pub holds : Holding fcap bcap before e' nodes fs bs
  pub log : e'.calls ≡ e.calls ++ calls
  pub topics : e'.topics ≡ e.topics

fast_nothing :
    {cap : ℕ} (c : IsCapacity cap) (e : Emulator) {free nodes : List ℕ} (ms : List EmuFastMessage)
    (out : Outside)
    → Queued cap e.fast free nodes ms
    → length ms ≡ 0
    → dispatch_fast cap e out ≡ some (false, e)
unfolding dispatch_fast
fast_nothing c e [] out v n = rw (receive-nil c v out) refl
fast_nothing c e (m ∷ ms) out v n = absurd (omega arith)

module _ {fcap bcap : ℕ} {before : Store} (e : Emulator) {ns : Nodes} where
  fast_first :
      (c : IsCapacity fcap) (ms : List EmuFastMessage) (l : Letter) (fs bs : List Letter)
      (out : Outside)
      → Queued fcap e.fast ns.fast_free ns.fast_nodes ms
      → AllFastCarry ms (l ∷ fs)
      → Mail bcap before e.bulk e.payloads ns.bulk_free ns.bulk_nodes bs
      → (e' : Emulator) × (dispatch_fast fcap e out ≡ some (true, e'))
        × After fcap bcap before e (calls_of l) fs bs e'
  unfolding dispatch_fast
  fast_first c [] l fs bs out v w u = ground arith
  fast_first c (m ∷ ms) l fs bs out v w u =
      let (node, b, free', nodes', got, at_node, queued) = receive-cons c v out in
      (
        record e { fast = recycle b node out; calls = e.calls ++ fast_calls (b.messages node) },
        rw got refl,
        record {
          nodes = record ns { fast_free = free'; fast_nodes = nodes' };
          holds = record {
            fast = record { messages = ms; queued = queued; carried = w.1 };
            bulk = u;
          };
          log =
              ap (λ m'. e.calls ++ fast_calls m') at_node
              ∙ ap (λ cs. e.calls ++ cs) (fast_calls-Carries m l w.0);
          topics = refl;
        },
      )

  pub dispatch_fast-nil :
      (c : IsCapacity fcap) (bs : List Letter) (out : Outside)
      → Holding fcap bcap before e ns [] bs
      → dispatch_fast fcap e out ≡ some (false, e)
  dispatch_fast-nil c bs out v =
      fast_nothing c e v.fast.messages out v.fast.queued
        (AllFastCarry-length v.fast.messages [] v.fast.carried)

  -- `dispatchFast` calls the observers of the first letter once each, in order, with its bytes.
  pub dispatch_fast-cons :
      (c : IsCapacity fcap) (l : Letter) (fs bs : List Letter) (out : Outside)
      → Holding fcap bcap before e ns (l ∷ fs) bs
      → (e' : Emulator) × (dispatch_fast fcap e out ≡ some (true, e'))
        × After fcap bcap before e (calls_of l) fs bs e'
  dispatch_fast-cons c l fs bs out v =
      fast_first c v.fast.messages l fs bs out v.fast.queued v.fast.carried v.bulk

  pub dispatch_bulk-nil :
      (c : IsCapacity bcap) (fs : List Letter) (out : Outside)
      → Holding fcap bcap before e ns fs []
      → dispatch_bulk bcap e out ≡ some (false, e)
  unfolding dispatch_bulk
  dispatch_bulk-nil c fs out v = rw (deliver-Mail_nil c v.bulk out) refl

  -- `dispatchBulk` calls the observers of the first letter once each, in order, with its bytes.
  pub dispatch_bulk-cons :
      (c : IsCapacity bcap) (l : Letter) (fs bs : List Letter) (out : Outside)
      → Holding fcap bcap before e ns fs (l ∷ bs)
      → (e' : Emulator) × (dispatch_bulk bcap e out ≡ some (true, e'))
        × After fcap bcap before e (calls_of l) fs bs e'
  unfolding dispatch_bulk
  dispatch_bulk-cons c l fs bs out v =
      let (b, s, free', nodes', went, w) = deliver-Mail_cons c v.bulk out in
      (
        record e { bulk = b; payloads = s; calls = e.calls ++ calls_of l },
        rw went refl,
        record {
          nodes = record ns { bulk_free = free'; bulk_nodes = nodes' };
          holds = record { fast = v.fast; bulk = w };
          log = refl;
          topics = refl;
        },
      )

-- ===== src/Store/Trace.antt =====
-- Any clients' calls of the store, in the order in which they take effect. A call runs to its end
-- once begun: nothing in packages/server/src/store.ts awaits between a check and its write.
use haikit.Prelude.{ℕ, Option, List, [], ◌∷◌, ◌≡◌, Text}
use haikit.Core.Types.{Conversation, NoticeBody, PayloadBody}
use haikit.Store.Memory.{Memory, load_conversation, save_conversation, put_payload, put_notice}

-- The calls that change the store; reads leave it as it is.
pub data Call : Type 0 where
  load : Option Text → ℕ → ℕ → Call
  save : Conversation → Call
  payload : PayloadBody → Option Text → ℕ → Call
  notice : NoticeBody → ℕ → Call

module _ (uuid : ℕ → Text) (lease_ms : ℕ) where
  unfoldable pub perform : Call → Memory → Memory
  perform (load id now later) m = (load_conversation uuid lease_ms id now later m).1
  perform (save c) m = (save_conversation c m).1
  perform (payload r token now) m = (put_payload r token now m).1
  perform (notice r now) m = (put_notice r now m).1

  unfoldable pub perform_all : List Call → Memory → Memory
  perform_all [] m = m
  perform_all (c ∷ cs) m = perform_all cs (perform c m)

  -- What every call keeps, any calls keep.
  pub perform_all_keeps {ℓ} :
      (P : Memory → Type ℓ)
      → ((c : Call) (m : Memory) → P m → P (perform c m))
      → (cs : List Call) (m : Memory) → P m
      → P (perform_all cs m)
  unfolding perform_all
  perform_all_keeps P step [] m h = h
  perform_all_keeps P step (c ∷ cs) m h = perform_all_keeps P step cs (perform c m) (step c m h)

-- What the code relies on of `crypto.randomUUID()`: no id is given twice, and an id is text that
-- every store keeps as it is.
pub record IsUuid (storable : Text → Text) (uuid : ℕ → Text) : Type 0 where
  pub injective : (i j : ℕ) → uuid i ≡ uuid j → i ≡ j
  pub kept : (i : ℕ) → storable (uuid i) ≡ uuid i

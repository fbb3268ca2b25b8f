-- ===== src/Runtime/Frame.antt =====
-- What a tool's run leaves of the history: `show`, `render`, `update` and `invokeTool` of
-- packages/server/src/runtime.ts.
use haikit.Prelude.{
  ◌∷◌, ◌++◌, [], set, ◌>>=◌, on_option, subst, pure, ◌=t=◌, Option-cases, is_stale_lease, ◌&&◌,
  Bool-cases, inl, inr, List, ◌≡◌, refl, Bool, true, false, Option, none, some, if◌then◌else◌, Text,
  Result, Exec, Error,
}
use haikit.Core.Json.{Json}
use haikit.Core.Types.{
  Conversation, Message, Pending, Mode, display, elicit, Window, never, ms, unknown, Number,
  PayloadRecord,
}
use haikit.Runtime.Types.{
  Hai, Turn, Surface, ToolRun, finish, throws, act, render, update, Question, ToolReturn, Asking,
}
use haikit.Runtime.Actions.{modify, gets, amend}
use haikit.Runtime.Windows.{Expiry, verdict_on, refuse_if_expired}
use haikit.Runtime.Tools.{
  is_none, show, ask, render_surface, still_fresh, follow_question, revise_record, update_surface,
  note_lost, run_tool,
}
use haikit.Runtime.Keeps.{
  Claim, Holds, bind_kept, Keeps-pure, Keeps, Keeps-amend, Keeps-modify, keeps_rules,
}

abbrev pub is_some : {A : Type 0} → Option A → Bool
is_some none = false
is_some (some a) = true

-- What a reply's questions come to while a call runs, by whether one asked before the call: then
-- this call asks nothing; else its question is the reply's.
abbrev pub Asks : Bool → Bool → Bool → Type 0
Asks true false true = Unit
Asks true asked asking = ⊥
Asks false true false = ⊥
Asks false asked asking = Unit

abbrev pub IsLost : Option Error → Type 0
IsLost none = Unit
IsLost (some e) = is_stale_lease e ≡ true

-- While a call runs: the messages, and the question that the turn waits on, are as they were.
abbrev pub Running : List Message → Option Pending → Bool → Claim
Running messages pending before ran asked asking lost c =
    (c.messages ≡ messages)
    × (c.pending ≡ pending)
    × Asks before (is_some asked) (is_some asking)
    × IsLost lost

first_true : (a b : Bool) → (a && b) ≡ true → a ≡ true
first_true true b e = refl
first_true false b e = cc

pub Asks-earlier : (asked asking : Bool) → Asks true asked asking → asking ≡ true
Asks-earlier false true h = refl
Asks-earlier false false h = elim h [ ]
Asks-earlier true asking h = elim h [ ]

either_some : {A : Type 0} (b : Bool) (x y : A) → is_some (if b then some x else some y) ≡ true
either_some true x y = refl
either_some false x y = refl

-- A revision takes the place of a question: it is one just where there was one.
follow_asked :
    {W : Type 0} (hai : Hai W) (handle : Text) (q : Question) (t : Turn W)
    → is_some (follow_question hai handle q t).asked ≡ is_some t.asked
unfolding follow_question
follow_asked hai handle q t = elim (Option-cases t.asked) [
  | inl e ↦ rw e refl
  | inr (a, e) ↦ elim (Bool-cases (a.handle =t= handle)) [
    | inl b ↦ rw (e, b) refl
    | inr b ↦ rw (e, b) refl
  ]
]

follow_asking :
    {W : Type 0} (hai : Hai W) (handle : Text) (q : Question) (t : Turn W)
    → is_some (follow_question hai handle q t).asking ≡ is_some t.asking
unfolding follow_question
follow_asking hai handle q t = elim (Option-cases t.asking) [
  | inl e ↦ rw e refl
  | inr (a, e) ↦ rw e (either_some _ _ _)
]

-- A claim that a surface's handle leaves as it is.
abbrev Shows : Claim → Type 0
Shows P =
    (r : Bool) (a : Option Question) (k : Option Asking) (l : Option Error) (c : Conversation)
    (handle : Text)
    → P r a k l c
    → P r a k l (record c { handles = c.handles ++ handle ∷ [] })

-- A claim that a tool's calls of its context keep.
pub record Admits (P : Claim) : Type 0 where
  pub shown : Shows P
  pub superseded :
      (r : Bool) (a : Option Question) (k : Option Asking) (l : Option Error) (c : Conversation)
      (handle next : Text)
      → P r a k l c
      → P r a k l (record c { superseded = set handle next c.superseded })
  pub asks :
      (r : Bool) (a : Option Question) (l : Option Error) (c : Conversation) (q : Question)
      (first : Asking)
      → P r a none l c
      → P r (some q) (some first) l c
  pub follows :
      (r : Bool) (a a' : Option Question) (k k' : Option Asking) (l : Option Error)
      (c : Conversation)
      → is_some a' ≡ is_some a
      → is_some k' ≡ is_some k
      → P r a k l c
      → P r a' k' l c
  pub loses :
      (r : Bool) (a : Option Question) (k : Option Asking) (l : Option Error) (c : Conversation)
      (e : Error)
      → is_stale_lease e ≡ true
      → P r a k l c
      → P r a k (some e) c

Asks-first : (before asked : Bool) → Asks before asked false → Asks before true true
Asks-first true false h = elim h [ ]
Asks-first true true h = elim h [ ]
Asks-first false asked h = tt

pub Running-Admits :
    (messages : List Message) (pending : Option Pending) (before : Bool)
    → Admits (Running messages pending before)
Running-Admits messages pending before = record {
  shown = λ r a k l c handle h. h;
  superseded = λ r a k l c handle next h. h;
  asks = λ r a l c q first h. (h.0, h.1, Asks-first before (is_some a) h.2, h.3);
  follows = λ r a a' k k' l c e f h. (h.0, h.1, rw (e, f) h.2, h.3);
  loses = λ r a k l c e s h. (h.0, h.1, h.2, s);
}

module _ {W : Type 0} (hai : Hai W) (P : Claim) where
  Keeps-verdict_on : (report : Bool) (f : Option Expiry) → Keeps P (verdict_on hai report f)
  unfolding verdict_on
  Keeps-verdict_on report none = search keeps_rules
  Keeps-verdict_on true (some f) = search keeps_rules
  Keeps-verdict_on false (some f) = search keeps_rules

  pub Keeps-refuse_if_expired : (report : Bool) → Keeps P (refuse_if_expired hai report)
  unfolding refuse_if_expired
  Keeps-refuse_if_expired report = search (keeps_rules, Keeps-verdict_on)

module _ {W : Type 0} (hai : Hai W) (P : Claim) (shows : Shows P) where
  Keeps-attached :
      (handle : Text)
      → Keeps {W = W} P (amend (λ c. record c { handles = c.handles ++ handle ∷ [] }))
  Keeps-attached handle =
      Keeps-amend (λ c. record c { handles = c.handles ++ handle ∷ [] })
        (λ t h. shows t.ran t.asked t.asking t.lost t.conversation handle h)

  Keeps-show :
      (id : Text) (s : Surface W) (props : Json) (mode : Mode) (replaces : Option Text)
      (m : Exec (Turn W) (Unit {0}))
      → Keeps P m
      → Keeps P (show hai id s props mode replaces m)
  unfolding show
  Keeps-show id s props mode replaces m k = search (keeps_rules, Keeps-attached) depth 14

module _ {W : Type 0} (hai : Hai W) (P : Claim) (admits : Admits P) where
  Keeps-replaced :
      (handle next : Text)
      → Keeps {W = W} P (amend (λ c. record c { superseded = set handle next c.superseded }))
  Keeps-replaced handle next =
      Keeps-amend (λ c. record c { superseded = set handle next c.superseded })
        (λ t h. admits.superseded t.ran t.asked t.asking t.lost t.conversation handle next h)

  Keeps-still_fresh : (n : Number) (w : Window) → Keeps P (still_fresh hai n w)
  unfolding still_fresh
  Keeps-still_fresh n never = search keeps_rules
  Keeps-still_fresh n (ms k) = search keeps_rules
  Keeps-still_fresh n unknown = search keeps_rules

  Keeps-follow_question :
      (handle : Text) (q : Question) → Keeps P (modify {W = W} (follow_question hai handle q))
  unfolding follow_question
  Keeps-follow_question handle q = Keeps-modify (follow_question hai handle q) λ t h.
      admits.follows t.ran t.asked _ t.asking _ t.lost t.conversation (follow_asked hai handle q t)
        (follow_asking hai handle q t) h

  Keeps-revise_record :
      (id : Text) (s : Surface W) (handle : Text) (props : Json) (r : PayloadRecord)
      → Keeps P (revise_record hai id s handle props r)
  unfolding revise_record
  Keeps-revise_record id s handle props r =
      search
        (
          keeps_rules,
          Keeps-refuse_if_expired hai P,
          Keeps-show hai P admits.shown,
          Keeps-still_fresh,
          Keeps-replaced,
          Keeps-follow_question,
        )
        depth 14

  Keeps-update_surface :
      (id : Text) (s : Surface W) (handle : Text) (props : Json)
      → Keeps P (update_surface hai id s handle props)
  unfolding update_surface
  Keeps-update_surface id s handle props = search (keeps_rules, Keeps-revise_record) depth 14

  noted_stale :
      (e : Error) (t : Turn W)
      → Holds P t
      → Holds P (if is_stale_lease e && is_none t.lost then record t { lost = some e } else t)
  noted_stale e t h = elim (Bool-cases (is_stale_lease e && is_none t.lost)) [
    | inl b ↦ rw b (
        admits.loses t.ran t.asked t.asking t.lost t.conversation e
          (first_true (is_stale_lease e) (is_none t.lost) b) h)
    | inr b ↦ rw b h
  ]

  Keeps-note_lost : {A : Type 0} (r : Result A) → Keeps P (note_lost hai r)
  unfolding note_lost
  Keeps-note_lost (Result.ok a) = search keeps_rules
  Keeps-note_lost (Result.err e) = Keeps-modify {P = P} _ (noted_stale e)

  ask_kept : (q : Question) (t : Turn W) → t.asking ≡ none → Holds P t → Holds P (ask hai q t).1
  unfolding ask modify ◌>>=◌
  ask_kept q t e h =
      admits.asks t.ran t.asked t.lost t.conversation q _
        (subst (λ k. P t.ran t.asked k t.lost t.conversation) e h)

  -- The first question of a reply.
  abbrev Unasked : Claim
  Unasked r a k l c = (k ≡ none) × P r a k l c

  first_kept :
      (id : Text) (s : Surface W) (props : Json) (t : Turn W)
      → t.asking ≡ none
      → Holds P t
      → Holds P ((show hai id s props elicit none (pure tt) >>= ask hai) t).1
  first_kept id s props t e h =
      let shows : Shows Unasked = λ r a k l c handle u. (u.0, admits.shown r a k l c handle u.1) in
      let shown = Keeps-show hai Unasked shows id s props elicit none (pure tt) (Keeps-pure tt) in
      bind_kept Unasked P (show hai id s props elicit none (pure tt)) (ask hai) t
        (Keeps.kept shown t (e, h)) (λ t' u. u.1) (λ q t' u. ask_kept q t' u.0 u.1)

  elicit_kept :
      (id : Text) (s : Surface W) (props : Json) (t : Turn W) (o : Option Asking)
      (m : Asking → Exec (Turn W) ToolReturn)
      → t.asking ≡ o
      → ((a : Asking) → Keeps P (m a))
      → Holds P t
      → Holds P (on_option o (show hai id s props elicit none (pure tt) >>= ask hai) m t).1
  unfolding on_option
  elicit_kept id s props t none m e k h = first_kept id s props t e h
  elicit_kept id s props t (some a) m e k h = Keeps.kept (k a) t h

  Keeps-render_surface :
      (id : Text) (s : Surface W) (props : Json) (mode : Mode)
      → Keeps P (render_surface hai id s props mode)
  unfolding render_surface gets ◌>>=◌
  Keeps-render_surface id s props display = search (keeps_rules, Keeps-show hai P admits.shown)
  Keeps-render_surface id s props elicit = record {
    kept = λ t. elicit_kept id s props t t.asking _ refl (λ a. Keeps-pure _);
  }

  -- Whatever a tool does.
  pub Keeps-run_tool : (id : Text) (run : ToolRun W) → Keeps P (run_tool hai id run)
  unfolding run_tool
  Keeps-run_tool id (finish r) = search keeps_rules
  Keeps-run_tool id (throws e) = search keeps_rules
  Keeps-run_tool id (act f k) = record {
    kept = λ t. Keeps.kept (Keeps-run_tool id (k t.world)) (record t { world = f t.world });
  }
  Keeps-run_tool id (render s props mode k) =
      let next = λ (r : Result ToolReturn). Keeps-run_tool id (k r) in
      search (keeps_rules, Keeps-render_surface, Keeps-note_lost, next) depth 14
  Keeps-run_tool id (update s handle props k) =
      let next = λ (r : Result ToolReturn). Keeps-run_tool id (k r) in
      search (keeps_rules, Keeps-update_surface, Keeps-note_lost, next) depth 14

-- ===== src/Logger/Named.antt =====
-- log_system/logs_code/Manager.hpp: which logger a name stands for, and which loggers `StopAll` stops.
use tcp_server.Logger.{AsyncLogger, stop}
use tcp_server.Worker.{ask_stop}
use tcp_server.Logger.Manager.{
  LoggerManager, assign, put_named, find, is_some, logger_exist, add_named, add_logger, get_logger,
  stop_at, stop_entries, stop_all,
}
use tcp_server.Base.{
  ℕ, zero, suc, ◌≡◌, refl, sym, ap, subst, ◌∙◌, ◌≢◌, ◌⊎◌, ◌↔◌, inl, inr, Bool, true, false, ◌||◌,
  Option, none, some, List, [], ◌∷◌, ◌++◌, append-nil, append_assoc, arith, ◌==◌, if◌then◌else◌,
  Bool-cases, if_true, if_false, same_text, same_text_sound, same_text_refl, get_elem?,
}

-- The loggers with their names, without null pointers.
abbrev pub named : List AsyncLogger → List ℕ → List (List ℕ × ℕ)
named store [] = []
named store (p ∷ ps) = elim (get_elem? store p) [
  | none ↦ named store ps
  | some l ↦ (l.logger_name, p) ∷ named store ps
]

abbrev pub add_all : List ℕ → LoggerManager → LoggerManager
add_all [] m = m
add_all (p ∷ ps) m = add_all ps (add_logger p m)

abbrev or_else : Option ℕ → Option ℕ → Option ℕ
or_else none o = o
or_else (some p) o = some p

same_text_iff : (xs ys : List ℕ) → (same_text xs ys ≡ true) ↔ (xs ≡ ys)
same_text_iff xs ys = (
  same_text_sound xs ys,
  λ e. subst (λ (t : List ℕ). same_text xs t ≡ true) e (same_text_refl xs),
)

find-append :
    (name : List ℕ) (es fs : List (List ℕ × ℕ))
    → find name (es ++ fs) ≡ or_else (find name es) (find name fs)
unfolding find
find-append name [] fs = refl
find-append name ((k, p) ∷ es) fs = elim (Bool-cases (same_text k name)) [
  | inl e ↦ rw e refl
  | inr e ↦ rw e (find-append name es fs)
]

-- What an assignment does to the names.
find-assign :
    (name k : List ℕ) (p : ℕ) (es : List (List ℕ × ℕ))
    → find name (assign k p es) ≡ (if same_text k name then some p else find name es)
unfolding find assign
find-assign name k p [] = refl
find-assign name k p ((j, q) ∷ es) =
    ground (
      arith,
      same_text_iff k name,
      same_text_iff j k,
      same_text_iff j name,
      find-assign name k p es,
    )

-- A new name is assigned behind the others.
assign_new :
    (k : List ℕ) (p : ℕ) (es : List (List ℕ × ℕ))
    → is_some (find k es) ≡ false
    → assign k p es ≡ es ++ ((k, p) ∷ [])
unfolding find assign
assign_new k p [] h = refl
assign_new k p ((j, q) ∷ es) h = elim (Bool-cases (same_text j k)) [
  | inl e ↦ cc (ap is_some (if_true (same_text j k) (some q) (find k es) e), h)
  | inr e ↦
      if_false (same_text j k) _ _ e
      ∙ ap (◌∷◌ (j, q)) (
          assign_new k p es
            (sym (ap is_some (if_false (same_text j k) (some q) (find k es) e)) ∙ h))
]

-- A name that is there already is not found further on.
find_past :
    (name k : List ℕ) (p : ℕ) (es fs : List (List ℕ × ℕ))
    → is_some (find k es) ≡ true
    → find name (es ++ ((k, p) ∷ fs)) ≡ find name (es ++ fs)
unfolding find
find_past name k p es fs h =
    find-append name es ((k, p) ∷ fs)
    ∙ by_name (Bool-cases (same_text k name))
    ∙ sym (find-append name es fs)
  where
    by_found : (o : Option ℕ) (r s : Option ℕ) → is_some o ≡ true → or_else o r ≡ or_else o s
    by_found none r s e = cc e
    by_found (some q) r s e = refl

    by_name :
        same_text k name ≡ true ⊎ same_text k name ≡ false
        → or_else (find name es) (if same_text k name then some p else find name fs)
          ≡ or_else (find name es) (find name fs)
    by_name (inl e) =
        by_found (find name es) _ _
          (subst (λ z. is_some (find z es) ≡ true) (same_text_sound k name e) h)
    by_name (inr e) =
        ap (or_else (find name es)) (if_false (same_text k name) (some p) (find name fs) e)

pub add_named-store : (p : ℕ) (k : List ℕ) (m : LoggerManager) → (add_named p k m).store ≡ m.store
unfolding add_named put_named
add_named-store p k m = elim (Bool-cases (logger_exist k m)) [
  | inl e ↦ ap (λ (z : LoggerManager). z.store) (if_true (logger_exist k m) m _ e)
  | inr e ↦ ap (λ (z : LoggerManager). z.store) (if_false (logger_exist k m) m _ e)
]

find-add_named :
    (name k : List ℕ) (p : ℕ) (m : LoggerManager) (fs : List (List ℕ × ℕ))
    → find name ((add_named p k m).loggers ++ fs) ≡ find name (m.loggers ++ ((k, p) ∷ fs))
unfolding add_named put_named logger_exist
find-add_named name k p m fs = elim (Bool-cases (is_some (find k m.loggers))) [
  | inl e ↦
      ap (λ (z : LoggerManager). find name (z.loggers ++ fs))
        (if_true (is_some (find k m.loggers)) m _ e)
      ∙ sym (find_past name k p m.loggers fs e)
  | inr e ↦
      ap (λ (z : LoggerManager). find name (z.loggers ++ fs))
        (if_false (is_some (find k m.loggers)) m _ e)
      ∙ ap (λ (z : List (List ℕ × ℕ)). find name (z ++ fs)) (assign_new k p m.loggers e)
      ∙ ap (find name) (append_assoc m.loggers ((k, p) ∷ []) fs)
]

-- After any loggers were added one after another, no two calls overlapping, `GetLogger` gives for each name the first that ever
-- had it: one that the manager had before, or else the first of those that were added, or a null
-- pointer.
pub get_logger-add_all :
    (name : List ℕ) (ps : List ℕ) (m : LoggerManager)
    → get_logger name (add_all ps m) ≡ find name (m.loggers ++ named m.store ps)
unfolding get_logger add_logger
get_logger-add_all name [] m = ap (find name) (sym (append-nil m.loggers))
get_logger-add_all name (p ∷ ps) m =
    by_pointer (get_elem? m.store p) (λ k. get_logger-add_all name ps k)
  where
    by_pointer :
        (o : Option AsyncLogger)
        → ((k : LoggerManager)
            → find name (add_all ps k).loggers ≡ find name (k.loggers ++ named k.store ps))
        → find name
            (add_all ps (elim o [ none ↦ m | some l ↦ add_named p l.logger_name m ])).loggers
          ≡ find name (
              m.loggers ++ elim o [
                | none ↦ named m.store ps
                | some l ↦ (l.logger_name, p) ∷ named m.store ps
              ])
    by_pointer none again = again m
    by_pointer (some l) again =
        again (add_named p l.logger_name m)
        ∙ find-add_named name l.logger_name p m (named (add_named p l.logger_name m).store ps)
        ∙ ap (λ z. find name (m.loggers ++ ((l.logger_name, p) ∷ named z ps)))
            (add_named-store p l.logger_name m)

-- Two calls of `AddLogger` for one name that both find it missing before either assigns: the name
-- stands for the logger that was assigned last, whatever `GetLogger` gave in between.
pub overlapping_calls :
    (name : List ℕ) (p q : ℕ) (m : LoggerManager)
    → (get_logger name (put_named p name m) ≡ some p)
      × (get_logger name (put_named q name (put_named p name m)) ≡ some q)
unfolding get_logger put_named
overlapping_calls name p q m = (
  find-assign name name p m.loggers ∙ if_true (same_text name name) _ _ (same_text_refl name),
  find-assign name name q (assign name p m.loggers)
      ∙ if_true (same_text name name) _ _ (same_text_refl name),
)

-- The pointer is among the entries of the map.
abbrev pub has_pointer : ℕ → List (List ℕ × ℕ) → Bool
has_pointer p [] = false
has_pointer p ((k, q) ∷ es) = q == p || has_pointer p es

stop_at_self :
    (p : ℕ) (ls : List AsyncLogger) (l : AsyncLogger)
    → get_elem? ls p ≡ some l
    → get_elem? (stop_at p ls) p ≡ some (stop l)
unfolding stop_at
stop_at_self p [] l e = cc e
stop_at_self zero (x ∷ ls) l e =
    let same : x ≡ l = cc e in ap (λ (z : AsyncLogger). some (stop z)) same
stop_at_self (suc p) (x ∷ ls) l e = stop_at_self p ls l e

stop_at_other :
    (q p : ℕ) (ls : List AsyncLogger) → q ≢ p → get_elem? (stop_at q ls) p ≡ get_elem? ls p
unfolding stop_at
stop_at_other q p [] h = refl
stop_at_other zero zero (x ∷ ls) h = absurd (h refl)
stop_at_other zero (suc p) (x ∷ ls) h = refl
stop_at_other (suc q) zero (x ∷ ls) h = refl
stop_at_other (suc q) (suc p) (x ∷ ls) h = stop_at_other q p ls (λ e. h (ap suc e))

stop_entries_lem :
    (es : List (List ℕ × ℕ)) (p : ℕ) (ls : List AsyncLogger) (l : AsyncLogger)
    → get_elem? ls p ≡ some l
    → get_elem? (stop_entries es ls) p ≡ some (if has_pointer p es then stop l else l)
unfolding stop_entries stop ask_stop
stop_entries_lem [] p ls l e = e
stop_entries_lem ((k, q) ∷ es) p ls l e = elim (Bool-cases (q == p)) [
  | inl same ↦
      let equal : q ≡ p = ground (arith, same) in
      let stopped : get_elem? (stop_at q ls) p ≡ some (stop l) =
        subst (λ z. get_elem? (stop_at z ls) p ≡ some (stop l)) (sym equal)
          (stop_at_self p ls l e) in
      stop_entries_lem es p (stop_at q ls) (stop l) stopped
      ∙ ap some (
          either (has_pointer p es)
          ∙ sym (if_true (q == p || has_pointer p es) (stop l) l (rw same refl)))
  | inr other ↦
      let different : q ≢ p = λ x. ground (arith, other, x) in
      stop_entries_lem es p (stop_at q ls) l (stop_at_other q p ls different ∙ e)
      ∙ ap (λ b. some (if b || has_pointer p es then stop l else l)) (sym other)
]
  where
    either : (b : Bool) → (if b then stop (stop l) else stop l) ≡ stop l
    either true = refl
    either false = refl

-- `StopAll` stops every logger that the map has an entry for, and leaves every other logger as it is.
pub stop_all_lem :
    (m : LoggerManager) (p : ℕ) (l : AsyncLogger)
    → get_elem? m.store p ≡ some l
    → get_elem? (stop_all m).store p ≡ some (if has_pointer p m.loggers then stop l else l)
unfolding stop_all
stop_all_lem m p l e = stop_entries_lem m.loggers p m.store l e

-- ===== src/Ast/Path/Laws.antt =====
-- Reads and writes of the vectors that a path names.
use wasmjit.Prelude.{◌≡◌, refl, sym, ap, ◌∙◌, [], ◌∷◌, ◌++◌, Option, none, some}
use wasmjit.Ast.Instruction.{Instr, Instrs, block, loop, if_, nil, cons, snoc}
use wasmjit.Ast.Path.{
  Field, body, then_, else_, Place, read_field, write_field, last_instr, on_last, bind_option, get,
  update,
}

pub last_instr-snoc : (is : Instrs) (i : Instr) → last_instr (snoc is i) ≡ some i
last_instr-snoc nil i = refl
last_instr-snoc (cons j nil) i = refl
last_instr-snoc (cons j (cons k is)) i = last_instr-snoc (cons k is) i

on_last-snoc : (f : Instr → Instr) (is : Instrs) (i : Instr) → on_last f (snoc is i) ≡ snoc is (f i)
on_last-snoc f nil i = refl
on_last-snoc f (cons j nil) i = refl
on_last-snoc f (cons j (cons k is)) i = ap (cons j) (on_last-snoc f (cons k is) i)

on_last-on_last :
    (f g : Instr → Instr) (is : Instrs) → on_last g (on_last f is) ≡ on_last (λ i. g (f i)) is
on_last-on_last f g nil = refl
on_last-on_last f g (cons i nil) = refl
on_last-on_last f g (cons i (cons j nil)) = refl
on_last-on_last f g (cons i (cons j (cons k is))) =
    ap (cons i) (on_last-on_last f g (cons j (cons k is)))

last_instr-on_last :
    (f : Instr → Instr) (is : Instrs) {i : Instr}
    → last_instr is ≡ some i
    → last_instr (on_last f is) ≡ some (f i)
last_instr-on_last f nil e = cc
last_instr-on_last f (cons i nil) e = cc
last_instr-on_last f (cons i (cons j nil)) e = cc
last_instr-on_last f (cons i (cons j (cons k is))) e = last_instr-on_last f (cons j (cons k is)) e

read_field-write_field :
    (x : Field) (g : Instrs → Instrs) (i : Instr) {is : Instrs}
    → read_field x i ≡ some is
    → read_field x (write_field x g i) ≡ some (g is)
read_field-write_field body g (block bt is) e = cc
read_field-write_field body g (loop bt is) e = cc
read_field-write_field then_ g (if_ bt is es) e = cc
read_field-write_field else_ g (if_ bt is es) e = cc
read_field-write_field _ g _ e = cc

write_field-write_field :
    (x : Field) (f g : Instrs → Instrs) (i : Instr)
    → write_field x g (write_field x f i) ≡ write_field x (λ is. g (f is)) i
write_field-write_field body f g (block bt is) = refl
write_field-write_field body f g (loop bt is) = refl
write_field-write_field then_ f g (if_ bt is es) = refl
write_field-write_field else_ f g (if_ bt is es) = refl
write_field-write_field _ f g _ = refl

bind_option_assoc :
    {A B C : Type 0} (o : Option A) (f : A → Option B) (g : B → Option C)
    → bind_option (bind_option o f) g ≡ bind_option o (λ a. bind_option (f a) g)
bind_option_assoc none f g = refl
bind_option_assoc (some a) f g = refl

pub get-append :
    (p q : Place) (root : Instrs) → get (p ++ q) root ≡ bind_option (get p root) (get q)
unfolding get
get-append [] q root = refl
get-append (x ∷ p) q root =
    (λ k. bind_option (last_instr root) λ i. bind_option (read_field x i) λ is. get-append p q is k)
    ∙ (λ k.
        bind_option (last_instr root)
          λ i. sym (bind_option_assoc (read_field x i) (get p) (get q)) k)
    ∙ sym (bind_option_assoc (last_instr root) _ (get q))

pub update-append :
    (p q : Place) (g : Instrs → Instrs) (root : Instrs)
    → update (p ++ q) g root ≡ update p (update q g) root
unfolding update
update-append [] q g root = refl
update-append (x ∷ p) q g root = λ i. on_last (write_field x λ is. update-append p q g is i) root

pub update-update :
    (p : Place) (f g : Instrs → Instrs) (root : Instrs)
    → update p g (update p f root) ≡ update p (λ is. g (f is)) root
unfolding update
update-update [] f g root = refl
update-update (x ∷ p) f g root = on_last-on_last _ _ root ∙ λ i.
    on_last
      (λ j.
        (write_field-write_field x (update p f) (update p g) j ∙ λ k.
        write_field x (λ is. update-update p f g is k) j)
          i)
      root

on_last-id : (f : Instr → Instr) (is : Instrs) → ((i : Instr) → f i ≡ i) → on_last f is ≡ is
on_last-id f nil h = refl
on_last-id f (cons i nil) h = ap (λ j. cons j nil) (h i)
on_last-id f (cons i (cons j is)) h = ap (cons i) (on_last-id f (cons j is) h)

write_field-id :
    (x : Field) (g : Instrs → Instrs) (i : Instr)
    → ((is : Instrs) → g is ≡ is)
    → write_field x g i ≡ i
write_field-id body g (block bt is) h = ap (block bt) (h is)
write_field-id body g (loop bt is) h = ap (loop bt) (h is)
write_field-id then_ g (if_ bt is es) h = ap (λ v. if_ bt v es) (h is)
write_field-id else_ g (if_ bt is es) h = ap (λ v. if_ bt is v) (h es)
write_field-id _ g _ h = refl

pub update-id :
    (p : Place) (g : Instrs → Instrs) (root : Instrs)
    → ((is : Instrs) → g is ≡ is)
    → update p g root ≡ root
unfolding update
update-id [] g root h = h root
update-id (x ∷ p) g root h =
    on_last-id _ root λ i. write_field-id x (update p g) i λ is. update-id p g is h

-- The step of the induction below, from a path to one with a field in front.
get-update_step :
    (x : Field) (p : Place) (g : Instrs → Instrs) (root : Instrs) {is : Instrs}
    → ((js ks : Instrs) → get p js ≡ some ks → get p (update p g js) ≡ some (g ks))
    → get (x ∷ p) root ≡ some is
    → get (x ∷ p) (update (x ∷ p) g root) ≡ some (g is)
unfolding get update
get-update_step x p g root ih e = at_last (last_instr root) refl e
  where
    at_field :
        (i : Instr) (o : Option Instrs) {is : Instrs}
        → read_field x i ≡ o
        → bind_option o (get p) ≡ some is
        → bind_option (read_field x (write_field x (update p g) i)) (get p) ≡ some (g is)
    at_field i none h e = cc
    at_field i (some js) h e = rw (read_field-write_field x (update p g) i h) (ih js _ e)

    at_last :
        (o : Option Instr) {is : Instrs}
        → last_instr root ≡ o
        → bind_option o (λ i. bind_option (read_field x i) (get p)) ≡ some is
        → bind_option
            (last_instr (on_last (write_field x (update p g)) root))
            (λ i. bind_option (read_field x i) (get p))
          ≡ some (g is)
    at_last none h e = cc
    at_last (some i) h e = rw (last_instr-on_last _ root h) (at_field i (read_field x i) refl e)

pub get-update :
    (p : Place) (g : Instrs → Instrs) (root : Instrs) {is : Instrs}
    → get p root ≡ some is
    → get p (update p g root) ≡ some (g is)
get-update [] g root e = unfold get update in ap (λ o. bind_option o (λ is. some (g is))) e
get-update (x ∷ p) g root e = get-update_step x p g root (λ js ks h. get-update p g js h) e

-- A field of an instruction that was just stored at the end of the vector at `p`: what it holds,
-- and what a write to it does.
module _ (p : Place) (x : Field) (i : Instr) (root : Instrs) where
  pub get-snoc_field :
      {is js : Instrs}
      → get p root ≡ some is
      → read_field x i ≡ some js
      → get (p ++ x ∷ []) (update p (λ v. snoc v i) root) ≡ some js
  get-snoc_field e h =
      rw (get-append, get-update p (λ v. snoc v i) root e) (unfold get in rw (last_instr-snoc, h))

  pub update-snoc_field :
      (g : Instrs → Instrs)
      → update (p ++ x ∷ []) g (update p (λ v. snoc v i) root)
        ≡ update p (λ v. snoc v (write_field x g i)) root
  update-snoc_field g =
      update-append p (x ∷ []) g _
      ∙ update-update p (λ v. snoc v i) (update (x ∷ []) g) root
      ∙ unfold update in λ k. update p (λ v. on_last-snoc (write_field x g) v i k) root

-- ===== src/Notify/Moved.antt =====
-- No message is lost or doubled on its way from the cache to a task of qtasks/tasks.py.
use Prim.Native.String.{◌++◌ as append}
use devops_backend.Prelude.{
  ◌+◌, String, ◌≡◌, refl, sym, ap, ◌∙◌, ◌≢◌, ◌⊎◌, inl, inr, Bool, false, not, Option, List, [], ◌∷◌,
  ◌++◌, arith, text_key, number_key, any, select, count_where,
}
use devops_backend.Notify.Model.{Cache, CacheEntry, NotifyState, SendTask}
use devops_backend.Notify.Queue.{
  sort_desc, insert_desc, has_key_prefix, deploy_notify_queue, handed_over, held,
}

count_where-insert_desc :
    (p : String × CacheEntry → Bool) (x : String × CacheEntry) (xs : Cache)
    → count_where p (insert_desc x xs) ≡ count_where p (x ∷ xs)
unfolding insert_desc
count_where-insert_desc p x [] = refl
count_where-insert_desc p x (y ∷ xs) = ground (arith, count_where-insert_desc p x xs)

pub count_where-sort_desc :
    (p : String × CacheEntry → Bool) (xs : Cache) → count_where p (sort_desc xs) ≡ count_where p xs
unfolding sort_desc
count_where-sort_desc p [] = refl
count_where-sort_desc p (x ∷ xs) =
    ground (arith, count_where-insert_desc p x (sort_desc xs), count_where-sort_desc p xs)

module _ {A : Type 0} (p q : A → Bool) where
  count_where-parts :
      (xs : List A)
      → count_where p (select q xs) + count_where p (select (λ x. not (q x)) xs) ≡ count_where p xs
  count_where-parts [] = refl
  count_where-parts (x ∷ xs) = ground (arith, count_where-parts xs)

  any-rejected : (xs : List A) → any q (select (λ x. not (q x)) xs) ≡ false
  any-rejected [] = refl
  any-rejected (x ∷ xs) = ground (arith, any-rejected xs)

  any-none : (xs : List A) → select q xs ≡ [] → any q xs ≡ false
  any-none [] h = refl
  any-none (x ∷ xs) h = ground (arith, any-none xs, h)

  select-all : (xs : List A) → any q xs ≡ false → select (λ x. not (q x)) xs ≡ xs
  select-all [] h = refl
  select-all (x ∷ xs) h = ground (arith, select-all xs, h)

handed_over-append :
    (p : String × CacheEntry → Bool) (ts : List SendTask) (t : SendTask)
    → handed_over p (ts ++ t ∷ []) ≡ handed_over p ts + count_where p t.msg
handed_over-append p [] t = ground arith
handed_over-append p (u ∷ ts) t = ground (arith, handed_over-append p ts t)

List-cases :
    (xs : Cache) → (xs ≡ []) ⊎ ((x : String × CacheEntry) × (rest : Cache) × (xs ≡ x ∷ rest))
List-cases [] = inl refl
List-cases (x ∷ xs) = inr (x, xs, refl)

insert_desc-filled : (x : String × CacheEntry) (xs : Cache) → insert_desc x xs ≢ []
unfolding insert_desc
insert_desc-filled x [] q = absurd (ground (arith, q))
insert_desc-filled x (y ∷ xs) q = absurd (ground (arith, q))

sort_desc-empty : (xs : Cache) → sort_desc xs ≡ [] → xs ≡ []
unfolding sort_desc
sort_desc-empty [] q = refl
sort_desc-empty (x ∷ xs) q = absurd (insert_desc-filled x (sort_desc xs) q)

-- The handing over of a key changes the number of no kind of entries, in the cache and in the tasks
-- together; afterwards the cache has no entry under the key, and its other entries as before.
pub deploy_notify_queue-held :
    (msg_key : String) (order_id : Option String) (title robot : String) (s : NotifyState)
    (p : String × CacheEntry → Bool)
    → (held p (deploy_notify_queue msg_key order_id title robot s) ≡ held p s)
      × (any
            (has_key_prefix (append msg_key ":"))
            (deploy_notify_queue msg_key order_id title robot s).cache
          ≡ false)
      × ((deploy_notify_queue msg_key order_id title robot s).cache
          ≡ select (λ q. not (has_key_prefix (append msg_key ":") q)) s.cache)
unfolding deploy_notify_queue
deploy_notify_queue-held msg_key order_id title robot s p =
    let under = has_key_prefix (append msg_key ":") in
    let found = select under s.cache in
    elim (List-cases (sort_desc found)) [
      | inl empty ↦
          let clear = any-none p under s.cache (sort_desc-empty found empty) in
          (rw empty refl, rw empty clear, rw empty (sym (select-all p under s.cache clear)))
      | inr c ↦
          let kept = select (λ q. not (under q)) s.cache in
          let task : SendTask = record {
            order_id = order_id;
            title = title;
            msg = c.0 ∷ c.1;
            robot = robot;
          } in
          let sorted = count_where-sort_desc p found in
          let parts = count_where-parts p under s.cache in
          let over = handed_over-append p s.tasks task in
          let same : count_where p (c.0 ∷ c.1) ≡ count_where p found =
            ap (λ xs. count_where p xs) (sym c.2) ∙ sorted in
          let whole : count_where p kept + handed_over p (s.tasks ++ task ∷ [])
              ≡ count_where p s.cache + handed_over p s.tasks =
            omega (arith, over, same, parts) in
          (rw c.2 whole, rw c.2 (any-rejected p under s.cache), rw c.2 refl)
    ]

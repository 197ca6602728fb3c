-- ===== src/CallSignaling/Cache.antt =====
-- How long a device list is used, and when it is dropped.
use signal2sip.Base.{
  ℕ, ◌+◌, ◌/◌, ◌<◌, ◌≡◌, refl, false, ◌&&◌, ◌||◌, none, some, List, [], ◌∷◌, arith, ◌==◌,
  if◌then◌else◌, ==_iff, Bytes, eqb, eqb_refl, eqb_iff,
}
use mathlib.Core.Option
use signal2sip.CallSignaling.{
  Cache, Network, cache_find, cache_erase, cache_put, device_list_cache_ttl, resolve_device_list,
  after_response,
}

cache_find-erase :
    (k j : Bytes) (cache : Cache)
    → cache_find j (cache_erase k cache) ≡ (if eqb j k then none else cache_find j cache)
unfolding cache_find cache_erase
cache_find-erase k j [] = ground arith
cache_find-erase k j ((i, ids, at) ∷ cache) =
    ground (arith, eqb_iff j k, eqb_iff k i, eqb_iff j i, cache_find-erase k j cache)

cache_find-put :
    (k j : Bytes) (ids : List ℕ) (at : ℕ) (cache : Cache)
    → cache_find j (cache_put k ids at cache)
      ≡ (if eqb j k then some (ids, at) else cache_find j cache)
unfolding cache_find cache_put
cache_find-put k j ids at cache = ground (arith, cache_find-erase k j cache)

-- A device list that was fetched is used again, without the network and without a change of the
-- cache, until the time to live has passed since the fetch; the lists of other peers are left as
-- they were.
pub resolve_device_list-again :
    (n m : Network) (now later now2 later2 : ℕ) (cache : Cache) (peer other : Bytes) (ids : List ℕ)
    → cache_find peer cache ≡ none
    → n.fetch peer ≡ some ids
    → now2 < later + device_list_cache_ttl
    → let next = cache_put peer ids later cache in
      (resolve_device_list n now later cache peer ≡ some (ids, next))
      × (resolve_device_list m now2 later2 next peer ≡ some (ids, next))
      × (cache_find other next
          ≡ (if eqb other peer then some (ids, later) else cache_find other cache))
unfolding resolve_device_list
resolve_device_list-again n m now later now2 later2 cache peer other ids h f l = (
  ground (arith, h, f),
  ground (arith, cache_find-put peer peer ids later cache, eqb_refl peer),
  cache_find-put peer other ids later cache,
)

-- After a response with status 409 or 410 the destination's devices are fetched anew by the next
-- send; after any other the cache is as it was. Other destinations keep their lists either way.
pub after_response-fetch :
    (n : Network) (destination other : Bytes) (status now later : ℕ) (cache : Cache)
    → let next = after_response destination status cache in
      (resolve_device_list n now later next destination ≡ (
        if (status == 409) || (status == 410)
        then Option.map (λ ids. (ids, cache_put destination ids later next)) (n.fetch destination)
        else resolve_device_list n now later cache destination))
      × (cache_find other next ≡ (
          if eqb other destination && ((status == 409) || (status == 410))
          then none
          else cache_find other cache))
unfolding resolve_device_list after_response
after_response-fetch n destination other status now later cache =
    let four : status ≡ 409 → (status / 100 == 2) ≡ false = λ e. rw e refl in
    let five : status ≡ 410 → (status / 100 == 2) ≡ false = λ e. rw e refl in
    (
      ground (
        arith,
        four,
        five,
        ==_iff status 409,
        ==_iff status 410,
        cache_find-erase destination destination cache,
        eqb_refl destination,
      ),
      ground (
        arith,
        four,
        five,
        ==_iff status 409,
        ==_iff status 410,
        cache_find-erase destination other cache,
      ),
    )

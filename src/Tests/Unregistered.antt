-- ===== src/Tests/Unregistered.antt =====
-- Two servers with a name, of which one has an interface, and a service class.
use rahunas.Config.Texts.Freed.{Blocks, Texts, Frees, all_texts}
use rahunas.Config.Texts.Unregistered.{vserver_texts, class_texts, unregister_all-Frees}
use rahunas.Config.Texts.{
  VServerTexts, ServiceClassTexts, unregister_vserver_texts, unregister_class_texts,
}
use rahunas.Prelude.{ℕ, refl, List, [], ◌∷◌, Option, none, some}
use rahunas.Server.{Setting, dev_internal}
use rahunas.Utils.Log.{Memory, is_live}

abbrev only_internal : Setting → Option ℕ
only_internal dev_internal = some 2
only_internal _ = none

abbrev two_servers : List VServerTexts
two_servers =
    (record { vserver_name = some 1; settings = only_internal })
    ∷ (record { vserver_name = some 3; settings = λ s. none })
    ∷ []

abbrev one_class : List ServiceClassTexts
one_class =
    (record {
      serviceclass_name = some 5;
      description = none;
      network = some 6;
      fake_arpd = none;
      fake_arpd_iface = none;
    })
    ∷ []

abbrev small_heap : Memory
small_heap = record { live = 4 ∷ 3 ∷ 2 ∷ 1 ∷ 6 ∷ 5 ∷ []; printed = [] }

small_heap-Blocks : Blocks small_heap.live
unfolding is_live
small_heap-Blocks = (refl, (refl, (refl, (refl, (refl, (refl, tt))))))

two_servers-Texts : Texts small_heap.live (all_texts vserver_texts two_servers)
unfolding is_live
two_servers-Texts = (refl, (refl, (refl, (refl, (refl, (refl, tt))))))

one_class-Texts : Texts small_heap.live (all_texts class_texts one_class)
unfolding is_live
one_class-Texts = (refl, (refl, (refl, (refl, tt))))

unregister_all-Frees_example :
    Frees
      (all_texts vserver_texts two_servers)
      small_heap
      (unregister_vserver_texts two_servers small_heap)
    × Frees
        (all_texts class_texts one_class)
        small_heap
        (unregister_class_texts one_class small_heap)
unregister_all-Frees_example =
    unregister_all-Frees two_servers one_class small_heap small_heap-Blocks two_servers-Texts
      one_class-Texts

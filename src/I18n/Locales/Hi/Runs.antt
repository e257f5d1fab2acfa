-- ===== src/I18n/Locales/Hi/Runs.antt =====
-- The texts of frontend/src/lib/i18n/locales/hi.ts: `pages.tasks`, `pages.orchestrate`,
-- `pages.autonomous`, `pages.agents`, `pages.workflowRuns`, `pages.approvals`, `pages.memory`,
-- `pages.workflows`.
use agent_os_test.Prelude.{[], ◌∷◌}
use agent_os_test.I18n.Catalogue.{Entries, end}
use agent_os_test.I18n.Notation.{texts}

abbrev pub tasks : Entries
tasks =
    texts
      (("title", "कार्य")
        ∷ (
          "description",
          "कार्य बनाएँ और उन्हें ID से खोजें। API कार्यों की सूची नहीं देता, इसलिए इस सत्र के हालिया कार्य नीचे दिखाए गए हैं।",
        )
        ∷ ("lookupPlaceholder", "कार्य ID चिपकाएँ")
        ∷ ("emptyTitle", "अभी तक कोई कार्य नहीं बनाया गया")
        ∷ ("emptyBody", "ऊपर बनाए गए कार्य यहाँ त्वरित खोज के लिए दिखाई देंगे।")
        ∷ [])
      end

abbrev pub orchestrate : Entries
orchestrate =
    texts
      (("title", "ऑर्केस्ट्रेट")
        ∷ (
          "description",
          "एक ही उद्देश्य पर researcher → builder → reviewer मल्टी-एजेंट ऑर्केस्ट्रेशन चलाएँ।",
        )
        ∷ ("objectivePlaceholder", "नई बिलिंग प्रणाली के लिए रोलआउट योजना बनाएँ")
        ∷ ("contextPlaceholder", "प्रासंगिक बाधाएँ, पूर्व निर्णय, या पृष्ठभूमि")
        ∷ ("working", "Researcher, builder और reviewer काम कर रहे हैं…")
        ∷ ("emptyTitle", "अभी तक कोई ऑर्केस्ट्रेशन रन नहीं")
        ∷ (
          "emptyBody",
          "ऊपर एक उद्देश्य दर्ज करें और चलाएँ, फिर researcher, builder और reviewer की गतिविधि देखें।",
        )
        ∷ [])
      end

abbrev pub autonomous : Entries
autonomous =
    texts
      (("title", "स्वायत्त रन")
        ∷ (
          "description",
          "Planner → specialist jobs → verifier → synthesis — एक ही उद्देश्य से पूरी तरह स्वायत्त।",
        )
        ∷ ("working", "योजना, specialist निष्पादन और सत्यापन जारी…")
        ∷ ("emptyTitle", "अभी तक कोई स्वायत्त रन नहीं")
        ∷ (
          "emptyBody",
          "ऊपर एक उद्देश्य भेजें और planner, specialists तथा verifier को काम करते देखें।",
        )
        ∷ [])
      end

abbrev pub agents : Entries
agents =
    texts
      (("title", "एजेंट")
        ∷ (
          "description",
          "THYNACT प्रति ऑर्केस्ट्रेशन तीन निश्चित भूमिकाएँ चलाता है, और प्रति स्वायत्त रन गतिशील रूप से नामित specialists।",
        )
        ∷ [])
      end

abbrev pub workflow_runs : Entries
workflow_runs =
    texts
      (("title", "वर्कफ़्लो रन")
        ∷ (
          "description",
          "ID से रन देखें और स्वीकृति ठहराव के बाद उसे फिर से शुरू करें। API रन सूची नहीं देता, इसलिए इस सत्र के रन नीचे दिखाए गए हैं।",
        )
        ∷ ("lookupPlaceholder", "वर्कफ़्लो रन ID चिपकाएँ")
        ∷ ("approvalIdPlaceholder", "स्वीकृति ID")
        ∷ ("emptyTitle", "अभी तक कोई वर्कफ़्लो रन नहीं")
        ∷ ("emptyBody", "वर्कफ़्लो एडिटर से आरंभ किए गए रन यहाँ दिखाई देंगे।")
        ∷ [])
      end

abbrev pub approvals : Entries
approvals =
    texts
      (("title", "स्वीकृति केंद्र")
        ∷ (
          "description",
          "THYNACT लंबित अनुरोध कतार के बजाय एकल-उपयोग, पूर्व-अधिकृत स्वीकृति अनुदान का उपयोग करता है।",
        )
        ∷ ("emptyTitle", "अभी तक कोई स्वीकृति जारी नहीं")
        ∷ ("emptyBody", "ऊपर जारी किए गए अनुदान यहाँ सूचीबद्ध होंगे, टूल पेज पर पुनः उपयोग के लिए।")
        ∷ [])
      end

abbrev pub memory : Entries
memory =
    texts
      (("title", "मेमोरी")
        ∷ ("description", "THYNACT की सिमेंटिक + लेक्सिकल मेमोरी खोजें, या सीधे नई मेमोरी लिखें।")
        ∷ ("searchHint", "सिमेंटिक + लेक्सिकल प्रासंगिकता के अनुसार क्रमित")
        ∷ ("listView", "सूची दृश्य")
        ∷ ("graphView", "ग्राफ़ दृश्य")
        ∷ ("emptyTitle", "कोई मेमोरी नहीं मिली")
        ∷ ("emptyBody", "कोई दूसरी क्वेरी या स्कोप आज़माएँ।")
        ∷ ("deleteMemory", "मेमोरी हटाएँ")
        ∷ ("deleteTitle", "यह मेमोरी हटाएँ?")
        ∷ ("deleteBody", "इसे पूर्ववत नहीं किया जा सकता।")
        ∷ [])
      end

abbrev pub workflows : Entries
workflows =
    texts
      (("title", "वर्कफ़्लो")
        ∷ (
          "description",
          "एक स्टेप ग्राफ़ बनाएँ, फिर उसे चलाएँ। अलग से सहेजने की ज़रूरत नहीं — वर्कफ़्लो चलाने पर उसकी परिभाषा सुरक्षित हो जाती है।",
        )
        ∷ ("viewRuns", "वर्कफ़्लो रन देखें")
        ∷ ("workflowName", "वर्कफ़्लो नाम")
        ∷ ("runContext", "रन संदर्भ (JSON)")
        ∷ ("stepGraph", "स्टेप ग्राफ़")
        ∷ ("addStep", "स्टेप जोड़ें")
        ∷ ("deleteSelected", "चयनित हटाएँ")
        ∷ ("runWorkflow", "वर्कफ़्लो चलाएँ")
        ∷ ("started", "वर्कफ़्लो आरंभ हुआ")
        ∷ ("runFailed", "रन विफल")
        ∷ [])
      end

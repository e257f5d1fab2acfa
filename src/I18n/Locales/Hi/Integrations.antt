-- ===== src/I18n/Locales/Hi/Integrations.antt =====
-- The texts of frontend/src/lib/i18n/locales/hi.ts: `pages.integrations`.
use agent_os_test.Prelude.{[], ◌∷◌}
use agent_os_test.I18n.Catalogue.{Entries, end}
use agent_os_test.I18n.Notation.{texts, groups}

abbrev pub integrations : Entries
integrations =
    texts
      (("title", "THYNACT इंटीग्रेशन")
        ∷ ("description", "बुद्धिमत्ता को उन टूल से जोड़ें जो काम पूरा करते हैं।")
        ∷ ("emptyTitle", "अभी तक कोई इंटीग्रेशन कनेक्ट नहीं है।")
        ∷ ("emptyBody", "नीचे से कोई कनेक्ट करें, या आरंभ करने के लिए MCP सर्वर जोड़ें।")
        ∷ ("searchPlaceholder", "इंटीग्रेशन खोजें…")
        ∷ ("noMatchTitle", "आपकी खोज से कोई इंटीग्रेशन मेल नहीं खाता")
        ∷ ("noMatchBody", "कोई दूसरा शब्द आज़माएँ या फ़िल्टर हटाएँ।")
        ∷ ("addMcpServer", "MCP सर्वर जोड़ें")
        ∷ ("currentlyIntegrated", "वर्तमान में इंटीग्रेटेड")
        ∷ ("readyToConnect", "कनेक्ट के लिए तैयार")
        ∷ ("comingSoon", "जल्द आ रहा है")
        ∷ ("all", "सभी")
        ∷ ("connected", "कनेक्टेड")
        ∷ (
          "operatorAccessRequired",
          "इंटीग्रेशन को जोड़ने, कॉन्फ़िगर करने या टेस्ट करने के लिए ऑपरेटर एक्सेस चाहिए — नीचे का कैटलॉग फिर भी देखा जा सकता है।",
        )
        ∷ [])
      (groups
        ((
          "actions",
          texts
              (("test", "टेस्ट")
                ∷ ("testConnection", "कनेक्शन टेस्ट करें")
                ∷ ("testFailed", "कनेक्शन टेस्ट विफल रहा")
                ∷ ("manage", "प्रबंधित करें")
                ∷ ("learnMore", "और जानें")
                ∷ ("connect", "{name} से जुड़ें")
                ∷ ("configure", "कॉन्फ़िगर करें")
                ∷ ("configureWebhook", "वेबहुक कॉन्फ़िगर करें")
                ∷ ("disconnect", "डिस्कनेक्ट करें")
                ∷ ("execute", "चलाएँ")
                ∷ [])
              end,
        )
          ∷ (
            "detail",
            texts
                ((
                  "catalogOnly",
                  "केवल कैटलॉग — यह कनेक्टर अभी बना नहीं है। यह बताता है कि THYNACT किसे सहारा दे सकता है; जब तक इसे लागू नहीं किया जाता, न कोई क्रेडेंशियल लिया जाता है और न ही कोई कनेक्शन संभव है।",
                )
                  ∷ ("requiresSetupPrefix", "सेटअप आवश्यक। इस कनेक्टर को जुड़ने से पहले बैकएंड पर")
                  ∷ ("requiresSetupSuffix", "कॉन्फ़िगर होना चाहिए।")
                  ∷ ("authorityTitle", "इसे जोड़ने से क्या अधिकार मिलता है")
                  ∷ (
                    "authorityBody",
                    "घोषित क्षमताएँ। ये बताती हैं कि एक कनेक्शन कितना अधिकार रखेगा — यह नहीं कि हर एक अभी लागू हो चुकी है।",
                  )
                  ∷ ("canRead", "पढ़ सकता है")
                  ∷ ("canChange", "बदल सकता है")
                  ∷ ("needsApproval", "आपकी स्वीकृति चाहिए")
                  ∷ (
                    "needsApprovalBody",
                    "THYNACT इन्हें तैयार कर सकता है, पर स्वयं पूरा नहीं कर सकता।",
                  )
                  ∷ (
                    "mcpUnmapped",
                    "इस MCP सर्वर से मिले टूल कैनोनिकल क्षमताओं से मैप नहीं हैं। जब तक मैप न हो, अज्ञात टूल अस्वीकृत रहता है — कोई सर्वर अपना जोखिम स्तर स्वयं तय नहीं कर सकता।",
                  )
                  ∷ ("systemInfrastructure", "सिस्टम इंफ्रास्ट्रक्चर")
                  ∷ (
                    "systemInfrastructureBody",
                    "यह THYNACT के अपने चालू सिस्टम का हिस्सा है, कोई खाता नहीं जिसे आप जोड़ते हैं। निदान के लिए दिखाया गया है।",
                  )
                  ∷ ("authType", "प्रमाणीकरण प्रकार")
                  ∷ ("lastCheck", "अंतिम जाँच")
                  ∷ ("latency", "विलंब")
                  ∷ ("lastError", "अंतिम त्रुटि")
                  ∷ ("lastExecution", "अंतिम निष्पादन")
                  ∷ ("never", "कभी नहीं")
                  ∷ ("docs", "दस्तावेज़")
                  ∷ ("capabilities", "क्षमताएँ")
                  ∷ ("plannedCapabilities", "नियोजित क्षमताएँ")
                  ∷ ("tools", "टूल")
                  ∷ ("resources", "रिसोर्स")
                  ∷ ("prompts", "प्रॉम्प्ट")
                  ∷ (
                    "noCapabilitiesYet",
                    "अभी तक कोई क्षमता नहीं मिली — ताज़ा करने के लिए कनेक्शन टेस्ट चलाएँ।",
                  )
                  ∷ ("executeWorkflow", "एक वर्कफ़्लो चलाएँ")
                  ∷ ("webhookWorkflow", "वेबहुक वर्कफ़्लो")
                  ∷ ("payloadJson", "पेलोड (JSON)")
                  ∷ ("payloadInvalid", "पेलोड मान्य JSON होना चाहिए")
                  ∷ ("success", "सफल")
                  ∷ ("failed", "विफल")
                  ∷ ("disconnectNamed", "{name} को डिस्कनेक्ट करें?")
                  ∷ ("disconnectMcp", "इस MCP सर्वर को डिस्कनेक्ट करें?")
                  ∷ (
                    "disconnectOAuthBody",
                    "यह सहेजा गया खाता कनेक्शन भुला देता है। आप कभी भी दोबारा अधिकृत कर सकते हैं।",
                  )
                  ∷ (
                    "disconnectMcpBody",
                    "यह सर्वर कॉन्फ़िगरेशन हटा देता है। इसे पूर्ववत नहीं किया जा सकता।",
                  )
                  ∷ [])
                end,
          )
          ∷ [])
        (texts
          (("browseTitle", "कनेक्टर ब्राउज़ करें")
            ∷ (
              "browseBody",
              "यहाँ हर प्रविष्टि उसकी लाइव स्थिति के साथ एक वास्तविक कैटलॉग रिकॉर्ड है। प्रोटोकॉल नाम (MCP, API, OAuth, webhook) खोजे जा सकते हैं।",
            )
            ∷ ("allStatuses", "सभी")
            ∷ ("allCategories", "सभी श्रेणियाँ")
            ∷ ("showingCount", "{total} में से {shown} कनेक्टर दिखाए जा रहे हैं")
            ∷ [])
          (groups
            ((
              "buckets",
              groups
                  ((
                    "connected",
                    texts
                        (("label", "कनेक्टेड")
                          ∷ ("hint", "वास्तविक प्रदाता के विरुद्ध सत्यापित।")
                          ∷ [])
                        end,
                  )
                    ∷ (
                      "needs_verification",
                      texts
                          (("label", "सत्यापन आवश्यक")
                            ∷ (
                              "hint",
                              "क्रेडेंशियल सेट हैं पर यह सिद्ध नहीं हुआ कि वे काम करते हैं। एक टेस्ट चलाएँ।",
                            )
                            ∷ [])
                          end,
                    )
                    ∷ (
                      "needs_setup",
                      texts
                          (("label", "सेटअप आवश्यक")
                            ∷ (
                              "hint",
                              "बना हुआ और तैयार — क्रेडेंशियल या अधिकृतीकरण की प्रतीक्षा में।",
                            )
                            ∷ [])
                          end,
                    )
                    ∷ (
                      "not_built",
                      texts
                          (("label", "अभी नहीं बना")
                            ∷ ("hint", "केवल कैटलॉग मेटाडेटा। इनके पीछे कोई अडैप्टर नहीं है।")
                            ∷ [])
                          end,
                    )
                    ∷ [])
                  end,
            )
              ∷ (
                "categories",
                texts
                    (("ai", "AI")
                      ∷ ("automation", "ऑटोमेशन")
                      ∷ ("productivity", "उत्पादकता")
                      ∷ ("google", "Google")
                      ∷ ("developer", "डेवलपर")
                      ∷ ("data", "डेटा")
                      ∷ ("other", "अन्य")
                      ∷ [])
                    end,
              )
              ∷ [])
            end)))

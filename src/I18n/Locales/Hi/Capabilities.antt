-- ===== src/I18n/Locales/Hi/Capabilities.antt =====
-- The texts of frontend/src/lib/i18n/locales/hi.ts: `capabilities`.
use agent_os_test.Prelude.{[], ◌∷◌}
use agent_os_test.I18n.Catalogue.{Entries, end}
use agent_os_test.I18n.Notation.{texts, groups}

abbrev pub capabilities : Entries
capabilities =
    groups
      ((
        "identity",
        groups (("account", texts (("read", "जुड़े हुए खाते को पढ़ना") ∷ []) end) ∷ []) end,
      )
        ∷ (
          "mail",
          groups
              ((
                "message",
                texts
                    (("list", "संदेश सूचीबद्ध करना")
                      ∷ ("read", "संदेश की सामग्री पढ़ना")
                      ∷ ("send", "मेल भेजना")
                      ∷ [])
                    end,
              )
                ∷ ("draft", texts (("create", "ड्राफ़्ट बनाना") ∷ []) end)
                ∷ [])
              end,
        )
        ∷ (
          "calendar",
          groups
              ((
                "event",
                texts
                    (("list", "कैलेंडर इवेंट सूचीबद्ध करना")
                      ∷ ("create", "कैलेंडर इवेंट बनाना")
                      ∷ ("update", "कैलेंडर इवेंट बदलना")
                      ∷ ("delete", "कैलेंडर इवेंट हटाना")
                      ∷ [])
                    end,
              )
                ∷ [])
              end,
        )
        ∷ (
          "files",
          groups
              ((
                "file",
                texts
                    (("list", "फ़ाइलें सूचीबद्ध करना")
                      ∷ ("read", "फ़ाइल की सामग्री पढ़ना")
                      ∷ ("write", "फ़ाइल बनाना या बदलना")
                      ∷ ("delete", "फ़ाइल हटाना")
                      ∷ [])
                    end,
              )
                ∷ [])
              end,
        )
        ∷ (
          "chat",
          groups
              ((
                "message",
                texts (("list", "चैनल के संदेश पढ़ना") ∷ ("send", "संदेश पोस्ट करना") ∷ []) end,
              )
                ∷ [])
              end,
        )
        ∷ (
          "docs",
          groups
              (("page", texts (("read", "पेज पढ़ना") ∷ ("write", "पेज बनाना या बदलना") ∷ []) end)
                ∷ [])
              end,
        )
        ∷ (
          "tracker",
          groups
              ((
                "issue",
                texts
                    (("list", "इशू सूचीबद्ध करना")
                      ∷ ("create", "इशू बनाना")
                      ∷ ("update", "इशू अपडेट करना")
                      ∷ [])
                    end,
              )
                ∷ [])
              end,
        )
        ∷ (
          "repo",
          groups
              (("metadata", texts (("read", "रिपॉज़िटरी मेटाडेटा पढ़ना") ∷ []) end)
                ∷ ("content", texts (("read", "रिपॉज़िटरी की सामग्री पढ़ना") ∷ []) end)
                ∷ ("issue", texts (("create", "इशू या पुल रिक्वेस्ट खोलना") ∷ []) end)
                ∷ ("branch", texts (("merge", "ब्रांच मर्ज करना") ∷ []) end)
                ∷ [])
              end,
        )
        ∷ (
          "automation",
          groups
              (("run", texts (("read", "निष्पादन का परिणाम पढ़ना") ∷ []) end)
                ∷ ("workflow", texts (("trigger", "बाहरी वर्कफ़्लो चलाना") ∷ []) end)
                ∷ [])
              end,
        )
        ∷ (
          "ai",
          groups
              (("model", texts (("list", "उपलब्ध मॉडल सूचीबद्ध करना") ∷ []) end)
                ∷ ("completion", texts (("create", "मॉडल कम्प्लीशन चलाना") ∷ []) end)
                ∷ [])
              end,
        )
        ∷ (
          "data",
          groups
              (("record", texts (("read", "रिकॉर्ड पढ़ना") ∷ ("write", "रिकॉर्ड लिखना") ∷ []) end)
                ∷ ("search", texts (("semantic", "सिमैंटिक खोज") ∷ []) end)
                ∷ [])
              end,
        )
        ∷ (
          "queue",
          groups
              ((
                "job",
                texts (("read", "कतार में लगे जॉब पढ़ना") ∷ ("enqueue", "जॉब कतार में डालना") ∷ [])
                    end,
              )
                ∷ [])
              end,
        )
        ∷ (
          "crm",
          groups
              ((
                "contact",
                texts
                    (("list", "CRM संपर्क सूचीबद्ध करना")
                      ∷ ("update", "CRM संपर्क अपडेट करना")
                      ∷ [])
                    end,
              )
                ∷ ("deal", texts (("list", "डील सूचीबद्ध करना") ∷ []) end)
                ∷ ("ticket", texts (("list", "टिकट सूचीबद्ध करना") ∷ []) end)
                ∷ [])
              end,
        )
        ∷ (
          "commerce",
          groups
              (("payment", texts (("list", "भुगतान सूचीबद्ध करना") ∷ []) end)
                ∷ ("subscription", texts (("list", "सब्सक्रिप्शन सूचीबद्ध करना") ∷ []) end)
                ∷ ("refund", texts (("create", "रिफ़ंड जारी करना") ∷ []) end)
                ∷ [])
              end,
        )
        ∷ (
          "cloud",
          groups
              (("service", texts (("read", "सेवा की स्थिति पढ़ना") ∷ []) end)
                ∷ ("dns", texts (("read", "DNS और एज कॉन्फ़िगरेशन पढ़ना") ∷ []) end)
                ∷ ("deploy", texts (("trigger", "डिप्लॉयमेंट चलाना") ∷ []) end)
                ∷ [])
              end,
        )
        ∷ (
          "auth",
          groups (("user", texts (("list", "प्रमाणित उपयोगकर्ता सूचीबद्ध करना") ∷ []) end) ∷ [])
              end,
        )
        ∷ [])
      end

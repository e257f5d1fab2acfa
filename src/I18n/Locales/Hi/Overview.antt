-- ===== src/I18n/Locales/Hi/Overview.antt =====
-- The texts of frontend/src/lib/i18n/locales/hi.ts: `pages.overview`.
use agent_os_test.Prelude.{[], ◌∷◌}
use agent_os_test.I18n.Catalogue.{Entries, end}
use agent_os_test.I18n.Notation.{texts, groups}

abbrev pub overview : Entries
overview =
    texts
      (("title", "उत्पाद अवलोकन")
        ∷ (
          "heroTitle",
          "एक एजेंट प्लेटफ़ॉर्म जो पहले सोचता है, फिर आपके नियंत्रण में कार्य करता है।",
        )
        ∷ (
          "heroBody",
          "THYNACT योजना बनाता है, कार्य सौंपता है, सत्यापित करता है और निष्पादित करता है — हर परिणामकारी कार्रवाई नीति द्वारा नियंत्रित, ऑडिट ट्रेल में दर्ज, और उस अनुरोध तक जाँची जा सकने योग्य जिसने उसे उत्पन्न किया।",
        )
        ∷ ("whatItDoes", "यह क्या करता है")
        ∷ ("everyItemLinks", "हर आइटम लाइव सतह से जुड़ा है")
        ∷ ("howItStaysTrustworthy", "यह भरोसेमंद कैसे रहता है")
        ∷ (
          "trustworthyBody",
          "स्वायत्तता तभी उपयोगी है जब उसकी सीमाएँ हों। ये सीमाएँ कोड में लागू हैं, किसी नीति दस्तावेज़ में लिखी हुई नहीं।",
        )
        ∷ ("startOrchestration", "ऑर्केस्ट्रेशन आरंभ करें")
        ∷ ("browseConnectors", "कनेक्टर देखें")
        ∷ ("connectors", "कनेक्टर")
        ∷ ("viewIntegrations", "इंटीग्रेशन देखें")
        ∷ [])
      (groups
        ((
          "pillars",
          groups
              ((
                "reason",
                texts
                    (("title", "कार्य से पहले विचार")
                      ∷ (
                        "body",
                        "हर अनुरोध जटिलता, विश्वास और जोखिम के आधार पर रूट होता है। सरल अनुरोध तेज़, नियतात्मक पथ पर ही रहते हैं; केवल वही काम योजना या कई specialists की लागत उठाता है जिसे सचमुच उसकी ज़रूरत हो।",
                      )
                      ∷ ("action", "ऑर्केस्ट्रेट")
                      ∷ [])
                    end,
              )
                ∷ (
                  "threeRole",
                  texts
                      (("title", "तीन-भूमिका ऑर्केस्ट्रेशन")
                        ∷ (
                          "body",
                          "Researcher, builder और reviewer एक समन्वित योजना के रूप में, वास्तविक समानांतरता सीमा के साथ चलते हैं — जिससे जटिल उद्देश्य एक ही चरण में उत्तर पाने के बजाय विभाजित और जाँचे जाते हैं।",
                        )
                        ∷ ("action", "स्वायत्त रन")
                        ∷ [])
                      end,
                )
                ∷ (
                  "workflow",
                  texts
                      (("title", "टिकाऊ वर्कफ़्लो इंजन")
                        ∷ (
                          "body",
                          "निर्भरता सत्यापन, पुनःप्रयास, टाइमआउट, शर्तों और स्वीकृति द्वारों के साथ विज़ुअल DAG बिल्डर। रन सुरक्षित रहते हैं और ठहराव के बाद फिर से शुरू किए जा सकते हैं।",
                        )
                        ∷ ("action", "वर्कफ़्लो बनाएँ")
                        ∷ [])
                      end,
                )
                ∷ (
                  "tools",
                  texts
                      (("title", "नियंत्रित टूल निष्पादन")
                        ∷ (
                          "body",
                          "हर टूल का एक जोखिम स्तर होता है। पढ़ने वाले टूल स्वतंत्र रूप से चलते हैं; लिखने और उच्च-जोखिम वाले टूल के लिए एकल-उपयोग स्वीकृति चाहिए, जिसे मॉडल स्वयं जारी नहीं कर सकता।",
                        )
                        ∷ ("action", "टूल रजिस्ट्री")
                        ∷ [])
                      end,
                )
                ∷ (
                  "memory",
                  texts
                      (("title", "सिमेंटिक + लेक्सिकल मेमोरी")
                        ∷ (
                          "body",
                          "pgvector पर हाइब्रिड रिट्रीवल, वास्तविक प्रासंगिकता स्कोरिंग के साथ — सिमेंटिक समानता, लेक्सिकल मिलान और महत्व भार; नाम बदलकर परोसी गई कीवर्ड खोज नहीं।",
                        )
                        ∷ ("action", "मेमोरी खोजें")
                        ∷ [])
                      end,
                )
                ∷ (
                  "runtime",
                  texts
                      (("title", "दिखाई देने वाला रनटाइम")
                        ∷ (
                          "body",
                          "सर्किट ब्रेकर, स्लाइडिंग-विंडो रेट लिमिट, सीमित पुनःप्रयास और idempotency कुंजियाँ — हर एक की लाइव स्थिति लॉग से अनुमान लगाने के बजाय सीधे देखी जा सकती है।",
                        )
                        ∷ ("action", "रनटाइम स्थिति")
                        ∷ [])
                      end,
                )
                ∷ [])
              end,
        )
          ∷ (
            "governance",
            groups
                ((
                  "authority",
                  texts
                      (("title", "मॉडल की बुद्धिमत्ता अधिकार नहीं है")
                        ∷ (
                          "body",
                          "क्षमता का अर्थ अनुमति कभी नहीं। भेजना, प्रकाशित करना, हटाना, खरीदना, रिफ़ंड, खर्च, डिप्लॉय और एडमिन परिवर्तन नीति से होकर गुज़रते हैं और, जहाँ आवश्यक हो, स्पष्ट स्वीकृति से।",
                        )
                        ∷ [])
                      end,
                )
                  ∷ (
                    "audited",
                    texts
                        (("title", "हर निष्पादन ऑडिट होता है")
                          ∷ (
                            "body",
                            "टूल रन में टूल, जोखिम, परिणाम, स्वीकृति आवश्यकता और उस अनुरोध की कोरिलेशन ID दर्ज होती है जिसने उसे उत्पन्न किया — ताकि हर कार्रवाई अपने स्रोत तक जाँची जा सके।",
                          )
                          ∷ [])
                        end,
                  )
                  ∷ (
                    "untrusted",
                    texts
                        (("title", "अविश्वसनीय सामग्री केवल डेटा है")
                          ∷ (
                            "body",
                            "ईमेल, वेब पेज, दस्तावेज़, कनेक्टर या MCP टूल से लौटा पाठ डेटा माना जाता है, निर्देश कभी नहीं। अज्ञात MCP टूल डिफ़ॉल्ट रूप से अस्वीकृत है।",
                          )
                          ∷ [])
                        end,
                  )
                  ∷ (
                    "honest",
                    texts
                        (("title", "ईमानदार क्षमता स्थितियाँ")
                          ∷ (
                            "body",
                            "कोई कनेक्टर इसलिए \"काम कर रहा\" नहीं माना जाता कि उसका एडाप्टर या कार्ड मौजूद है। हर एक अपनी वास्तविक स्थिति बताता है — लाइव-सत्यापित, क्रेडेंशियल-आवश्यक या लागू-नहीं — और कुछ भी बढ़ा-चढ़ाकर नहीं दिखाया जाता।",
                          )
                          ∷ [])
                        end,
                  )
                  ∷ [])
                end,
          )
          ∷ [])
        (texts
          ((
            "connectorsBody",
            "प्रदाताओं तक एक ब्रोकर के माध्यम से पहुँचा जाता है जो पहले आधिकारिक MCP, फिर सत्यापित MCP, फिर प्रबंधित कनेक्टर, फिर नेटिव एडाप्टर को प्राथमिकता देता है। इंटीग्रेशन पेज हर एक की वास्तविक स्थिति दिखाता है — कनेक्टेड, क्रेडेंशियल आवश्यक, या लागू नहीं — न कि ऐसी गिनती जो उत्पाद को बढ़ा-चढ़ाकर दिखाए।",
          )
            ∷ ("mcpFirst", "MCP-पहले, केवल-MCP नहीं")
            ∷ [])
          end))
